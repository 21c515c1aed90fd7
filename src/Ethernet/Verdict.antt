-- ===== src/Ethernet/Verdict.antt =====
-- Which frames `process_ethernet` lets into its queue.
use rustwall.Base.{
  ◌≡◌, refl, ap, ◌∙◌, Bytes, Bool, true, false, not, ◌&&◌, ◌||◌, Option, none, some, Bool-cases,
  inl, inr, ◌⊎◌,
}
use rustwall.Exec.{ok, err, ret}
use rustwall.Exec.Keeps.{After}
use rustwall.Exec.Inversion.{Result-cases}
use rustwall.Smoltcp.{Smoltcp, EthernetProtocol, ipv4, ipv6, arp, other_ethertype}
use rustwall.Externs.{Externs, Filter}
use rustwall.State.{State, Side, rx, tx, packets}
use rustwall.Buffer.{get_device_mac, known_mac}
use rustwall.Ethernet.{bytes_eq, is_for_other, check_ethertype, process_ethernet}

-- The protocols that may pass.
abbrev pub may_pass : EthernetProtocol → Bool
may_pass ipv4 = true
may_pass arp = true
may_pass ipv6 = false
may_pass (other_ethertype n) = false

module _ {Frag Frags W : Type 0} (net : Smoltcp Frag Frags) (ext : Externs W) where
  -- The address that is stored, or else the one that the driver tells.
  abbrev pub own_address : Option Bytes → W → Bytes
  own_address (some mac) w = mac
  own_address none w = ext.ethdriver_mac w

  abbrev pub for_this_device : Bytes → State Frags W → Bool
  for_this_device frame s =
      net.is_broadcast (net.eth_dst_addr frame)
      || (net.is_multicast (net.eth_dst_addr frame)
          || bytes_eq (net.eth_dst_addr frame) (own_address s.client_mac_address s.world))

  -- A well-formed IPv4 or ARP frame that is broadcast, multicast or for this device, the last if
  -- it is asked.
  pub record Admitted (check_mac : Bool) (frame : Bytes) (s : State Frags W) : Type 0 where
    pub well_formed : net.eth_check_len frame ≡ ok tt
    pub for_us : (not check_mac || for_this_device frame s) ≡ true
    pub protocol : may_pass (net.eth_ethertype frame) ≡ true

  pub de_morgan : (a b c : Bool) → (not a && not b && not c) ≡ not (a || (b || c))
  de_morgan true b c = refl
  de_morgan false true c = refl
  de_morgan false false true = refl
  de_morgan false false false = refl

  packets-mac :
      (side : Side) (s : State Frags W) (mac : Bytes)
      → packets side (record s { client_mac_address = some mac }) ≡ packets side s
  packets-mac rx s mac = refl
  packets-mac tx s mac = refl

  known_mac_lem :
      (side : Side) (s : State Frags W) (m : Option Bytes)
      → (t : State Frags W) × (known_mac ext m s ≡ ret (own_address m s.world) t)
        × (packets side t ≡ packets side s)
  known_mac_lem side s (some mac) = (s, unfold known_mac in refl, refl)
  known_mac_lem side s none = (
    record s { client_mac_address = some (ext.ethdriver_mac s.world) },
    unfold known_mac in refl,
    packets-mac side s _,
  )

  is_for_other_lem :
      (side : Side) (frame : Bytes) (s : State Frags W)
      → (t : State Frags W) × (is_for_other net ext true frame s
          ≡ ret (not (for_this_device frame s)) t)
        × (packets side t ≡ packets side s)
  unfolding is_for_other get_device_mac
  is_for_other_lem side frame s =
      let (t, known, same) = known_mac_lem side s s.client_mac_address in
      (t, rw known (ap (λ b. ret b t) (de_morgan _ _ _)), same)

  passed_over :
      (side fragment_buffer : Side) (filter : Filter W) (frame : Bytes) (p : EthernetProtocol)
      (t : State Frags W)
      → may_pass p ≡ false
      → check_ethertype net ext side fragment_buffer filter frame p t ≡ ret tt t
  unfolding check_ethertype
  passed_over side fragment_buffer filter frame ipv4 t h = cc
  passed_over side fragment_buffer filter frame arp t h = cc
  passed_over side fragment_buffer filter frame ipv6 t h = refl
  passed_over side fragment_buffer filter frame (other_ethertype n) t h = refl

  module _ (side fragment_buffer : Side) (filter : Filter W) (frame : Bytes) where
    -- The queue after a frame is what it was, or the frame was let in.
    abbrev Verdict : Bool → State Frags W → Type 0
    Verdict check_mac s =
        After (λ t. packets side t ≡ packets side s)
          (process_ethernet net ext frame side fragment_buffer filter check_mac s)
        ⊎ Admitted check_mac frame s

    malformed :
        (check_mac : Bool) (s : State Frags W) {e : _}
        → net.eth_check_len frame ≡ err e
        → Verdict check_mac s
    malformed check_mac s h = inl (unfold process_ethernet in rw h refl)

    -- With the address checked.
    by_protocol :
        (check_mac : Bool) (s t : State Frags W)
        → net.eth_check_len frame ≡ ok tt
        → is_for_other net ext check_mac frame s ≡ ret false t
        → packets side t ≡ packets side s
        → (not check_mac || for_this_device frame s) ≡ true
        → Verdict check_mac s
    by_protocol check_mac s t well here same for_us =
        elim (Bool-cases (may_pass (net.eth_ethertype frame))) [
          | inl passes ↦ inr (record { well_formed = well; for_us = for_us; protocol = passes })
          | inr not_passed ↦ inl (
              unfold process_ethernet in
              rw (well, here, passed_over side fragment_buffer filter frame _ t not_passed) same)
        ]

    foreign :
        (s t : State Frags W)
        → net.eth_check_len frame ≡ ok tt
        → is_for_other net ext true frame s ≡ ret true t
        → packets side t ≡ packets side s
        → Verdict true s
    foreign s t well there same = inl (unfold process_ethernet in rw (well, there) same)

    well_formed_lem :
        (check_mac : Bool) (s : State Frags W)
        → net.eth_check_len frame ≡ ok tt
        → Verdict check_mac s
    well_formed_lem false s well =
        by_protocol false s s well (unfold is_for_other in refl) refl refl
    well_formed_lem true s well =
        let (t, asked, same) = is_for_other_lem side frame s in
        elim (Bool-cases (for_this_device frame s)) [
          | inl ours ↦ by_protocol true s t well (asked ∙ ap (λ b. ret (not b) t) ours) same ours
          | inr others ↦ foreign s t well (asked ∙ ap (λ b. ret (not b) t) others) same
        ]

    -- Whatever the frame and whatever comes of it, `process_ethernet` leaves its queue alone unless
    -- the frame is well-formed, is IPv4 or ARP and, if the address is checked, is broadcast,
    -- multicast or for this device.
    pub process_ethernet-Admitted : (check_mac : Bool) (s : State Frags W) → Verdict check_mac s
    process_ethernet-Admitted check_mac s = elim (Result-cases (net.eth_check_len frame)) [
      | inl (tt, well) ↦ well_formed_lem check_mac s well
      | inr (e, wrong) ↦ malformed check_mac s wrong
    ]
