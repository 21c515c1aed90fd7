-- ===== src/Glue/Traffic.antt =====
-- What the kernel of the TAP device of src/server_glue.c is asked for, in its order.
use rustwall.Base.{
  ℕ, ℤ, ◌≤◌, ◌≡◌, refl, sym, subst, true, false, Bytes, List, [], ◌∷◌, ◌++◌, length,
}
use mathlib.Core.List.{append-nil, append_assoc}
use rustwall.Constants.{buffer_size}
use rustwall.Glue.{Os, Glue, FdSet, Timeval, is_negative}

-- The device is set up, and its buffer holds BUFFER_SIZE bytes.
pub record IsUp {K : Type 0} (g : Glue K) : Type 0 where
  pub status : g.status ≡ true
  pub room : buffer_size ≤ length g.tun_buffer

module _ {K : Type 0} (os : Os K) (fd : ℤ) where
  -- The kernel is asked to wait, to read from the descriptor and to write to it; the frames written,
  -- each without a failure, are those of the list, in its order.
  pub data Traffic (k : K) : List Bytes → K → Type 0 where
    quiet : Traffic k [] k
    waited :
        {frames : List Bytes} {k' : K}
        → Traffic k frames k'
        → (n : ℤ) (set : FdSet) (t : Timeval) → Traffic k frames (os.select n set t k').3
    heard :
        {frames : List Bytes} {k' : K}
        → Traffic k frames k'
        → (n : ℕ) → Traffic k frames (os.read fd n k').2
    wrote :
        {frames : List Bytes} {k' : K}
        → Traffic k frames k'
        → (frame : Bytes) → is_negative (os.write fd frame k').0 ≡ false
        → Traffic k (frames ++ frame ∷ []) (os.write fd frame k').1

  pub Traffic-trans :
      {k k' k'' : K} {before after : List Bytes}
      → Traffic k before k'
      → Traffic k' after k''
      → Traffic k (before ++ after) k''
  Traffic-trans {k} {k'} {k''} {before} p quiet =
      subst (λ q. Traffic k q k'') (sym (append-nil before)) p
  Traffic-trans p (waited q n set t) = waited (Traffic-trans p q) n set t
  Traffic-trans p (heard q n) = heard (Traffic-trans p q) n
  Traffic-trans {k} {k'} {k''} {before} p (wrote {frames = frames} q frame h) =
      subst (λ a. Traffic k a k'') (append_assoc before frames (frame ∷ []))
        (wrote (Traffic-trans p q) frame h)

-- The globals moved on from `g` to `g'` without a frame written.
pub record Heard {K : Type 0} (os : Os K) (g g' : Glue K) : Type 0 where
  pub up : IsUp g'
  pub same_fd : g'.tun_fd ≡ g.tun_fd
  pub traffic : Traffic os g.tun_fd g.kernel [] g'.kernel

pub Heard-refl : {K : Type 0} {os : Os K} (g : Glue K) → IsUp g → Heard os g g
Heard-refl g up = record { up = up; same_fd = refl; traffic = quiet }
