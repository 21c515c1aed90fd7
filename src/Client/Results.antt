-- ===== src/Client/Results.antt =====
-- What the results of `client_tx` and `client_rx` say of the queues that they leave.
use rustwall.Base.{
  false, ℕ, ◌≡◌, refl, sym, ap, ◌∙◌, ℤ, pos, minus_one, is_minus_one, as_usize, Bytes, List, [],
  ◌∷◌, ◌++◌, ◌⊎◌, inl, inr, Bool-cases,
}
use rustwall.Exec.{ret}
use rustwall.Exec.Inversion.{continue-eq-ret, ret-state, ret-value}
use rustwall.Smoltcp.{Smoltcp}
use rustwall.Externs.{Externs}
use rustwall.State.{State, tx}
use rustwall.Buffer.{
  new_status, dispatch_data_to_ethdriver, copy_data_to_client_buf, fetch_client_data,
}
use rustwall.Buffer.Exchange.{kept_of, kept, copy_data-Keeps, dispatch-Keeps}
use rustwall.Ethernet.{process_ethernet}
use rustwall.Client.{
  send_packets, client_tx, receive_packets, deliver_packet, client_rx, more_data, ignore_error,
}

module _ {Frags W : Type 0} where
  -- All frames of `q` went out and 0 is stored; or -1 is, and what is queued is what was behind the
  -- frame that the driver refused.
  abbrev pub Sent : List Bytes → State Frags W → Type 0
  Sent q t =
      ((t.ret_client_tx ≡ pos 0) × (t.packets_tx ≡ []))
      ⊎ ((t.ret_client_tx ≡ minus_one)
          × ((before : List Bytes) × (frame : Bytes) × (q ≡ before ++ frame ∷ t.packets_tx)))

  Sent-cons : (p : Bytes) (q : List Bytes) (t : State Frags W) → Sent q t → Sent (p ∷ q) t
  Sent-cons p q t (inl done) = inl done
  Sent-cons p q t (inr (r, (before, frame, e))) = inr (r, (p ∷ before, frame, ap (λ x. p ∷ x) e))

module _ {Frag Frags W : Type 0} (net : Smoltcp Frag Frags) (ext : Externs W) where
  -- If the loop of `client_tx` returns, with its queue the stored one and 0 stored before, then it
  -- has sent the whole queue and 0 stays stored, or it has stored -1 and left in the
  -- queue exactly the frames behind the one that the driver refused.
  pub send_packets-Sent :
      (q : List Bytes) (s t : State Frags W)
      → s.packets_tx ≡ q
      → s.ret_client_tx ≡ pos 0
      → send_packets net ext q s ≡ ret tt t
      → Sent q t
  unfolding send_packets
  send_packets-Sent [] s t h k e =
      let same : s ≡ t = ret-state e in
      inl (ap (λ x. x.ret_client_tx) (sym same) ∙ k, ap (λ x. x.packets_tx) (sym same) ∙ h)
  send_packets-Sent (p ∷ ps) s t h k e =
      let s' : State Frags W = record s { packets_tx = ps } in
      let (r, u, dispatched, rest) = continue-eq-ret (dispatch_data_to_ethdriver ext p s') _ e in
      let same : kept_of u ≡ kept_of s' = kept (dispatch-Keeps ext p) dispatched in
      elim (Bool-cases (is_minus_one r)) [
        | inl failed ↦
            let stored : record u { ret_client_tx = minus_one } ≡ t =
              ret-state (rw failed at rest) in
            inr (
              ap (λ x. x.ret_client_tx) (sym stored),
              (
                [],
                p,
                ap (λ x. p ∷ x)
                    (sym (ap (λ x. x.packets_tx) (sym stored) ∙ ap (λ x. x.packets_tx) same)),
              ),
            )
        | inr taken ↦ Sent-cons p ps t (
            send_packets-Sent ps u t (ap (λ x. x.packets_tx) same)
              (ap (λ x. x.ret_client_tx) same ∙ k) (rw taken at rest))
      ]

  -- If `client_tx` returns, it returns 0 with nothing left to send, or -1; and what it returns is
  -- the stored result.
  pub client_tx-Drained :
      (n r : ℤ) (s t : State Frags W)
      → client_tx net ext n s ≡ ret r t
      → (t.ret_client_tx ≡ r) × (((r ≡ pos 0) × (t.packets_tx ≡ [])) ⊎ (r ≡ minus_one))
  unfolding client_tx
  client_tx-Drained n r s t e =
      let (frame, s1, _, e1) = continue-eq-ret (fetch_client_data (as_usize n) s) _ e in
      let (_, s2, _, e2) =
        continue-eq-ret
          (ignore_error (process_ethernet net ext frame tx tx ext.packet_out false) s1) _ e1 in
      let s3 : State Frags W = record s2 { ret_client_tx = pos 0 } in
      let (_, s4, sent, e3) = continue-eq-ret (send_packets net ext s3.packets_tx s3) _ e2 in
      result s4 e3 (send_packets-Sent s3.packets_tx s3 s4 refl refl sent)
    where
      result :
          {q : List Bytes} (u : State Frags W)
          → ret u.ret_client_tx u ≡ ret r t
          → Sent q u
          → (t.ret_client_tx ≡ r) × (((r ≡ pos 0) × (t.packets_tx ≡ [])) ⊎ (r ≡ minus_one))
      result {q = q} u h sent =
          (ap (λ x. x.ret_client_tx) (sym (ret-state h)) ∙ ret-value h, by_case sent)
        where
          by_case : Sent q u → ((r ≡ pos 0) × (t.packets_tx ≡ [])) ⊎ (r ≡ minus_one)
          by_case (inl (zero_stored, empty)) =
              inl (
                sym (ret-value h) ∙ zero_stored,
                ap (λ x. x.packets_tx) (sym (ret-state h)) ∙ empty,
              )
          by_case (inr (failed, _)) = inr (sym (ret-value h) ∙ failed)

  deliver_lem :
      (q : List Bytes) (len r len' : ℤ) (s t : State Frags W)
      → s.packets_rx ≡ q
      → deliver_packet net ext len q s ≡ ret (r, len') t
      → (t.ret_client_rx ≡ r)
        × (((r ≡ minus_one) × (t.packets_rx ≡ [])) ⊎ (r ≡ more_data t.packets_rx))
  unfolding deliver_packet
  deliver_lem [] len r len' s t h e = (
    ap (λ x. x.ret_client_rx) (sym (ret-state e)) ∙ ap (λ x. x.0) (ret-value e),
    inl (sym (ap (λ x. x.0) (ret-value e)), ap (λ x. x.packets_rx) (sym (ret-state e)) ∙ h),
  )
  deliver_lem (p ∷ ps) len r len' s t h e =
      let s' : State Frags W = record s { packets_rx = ps } in
      let (n, u, copied, rest) = continue-eq-ret (copy_data_to_client_buf p s') _ e in
      let same : kept_of u ≡ kept_of s' = kept (copy_data-Keeps p) copied in
      let left : t.packets_rx ≡ ps =
        ap (λ x. x.packets_rx) (sym (ret-state rest)) ∙ ap (λ x. x.packets_rx) same in
      (
        ap (λ x. x.ret_client_rx) (sym (ret-state rest)) ∙ ap (λ x. x.0) (ret-value rest),
        inr (sym (ap (λ x. x.0) (ret-value rest)) ∙ ap more_data (sym left)),
      )

  -- If `client_rx` returns, it returns -1 with nothing left to receive, or else 1 if there is more
  -- to receive and 0 if not; and what it returns is the stored result.
  pub client_rx-More :
      (fuel : ℕ) (len r len' : ℤ) (s t : State Frags W)
      → client_rx net ext fuel len s ≡ ret (r, len') t
      → (t.ret_client_rx ≡ r)
        × (((r ≡ minus_one) × (t.packets_rx ≡ [])) ⊎ (r ≡ more_data t.packets_rx))
  unfolding client_rx
  client_rx-More fuel len r len' s t e =
      let (_, s1, _, e1) = continue-eq-ret (receive_packets net ext fuel new_status s) _ e in
      deliver_lem s1.packets_rx len r len' s1 t refl e1
