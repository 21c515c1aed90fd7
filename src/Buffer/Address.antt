-- ===== src/Buffer/Address.antt =====
-- The first use of the device's address stores it; nothing else changes.
use rustwall.Base.{Bytes, Option, none, some}
use rustwall.Exec.Keeps.{Frame, Keeps}
use rustwall.Externs.{Externs}
use rustwall.State.{State}
use rustwall.Buffer.{known_mac, get_device_mac}

module _ {Frags W : Type 0} (ext : Externs W) where
  known_mac-Keeps :
      {F : Frame (State Frags W)}
      → ((s : State Frags W) (mac : Bytes) → F.Rel s (record s { client_mac_address = some mac }))
      → (known : Option Bytes) → Keeps F (known_mac ext known)
  unfolding known_mac
  known_mac-Keeps {F = F} h none = record { at = λ s. h s (ext.ethdriver_mac s.world) }
  known_mac-Keeps {F = F} h (some mac) = record { at = F.Rel_refl }

  pub get_device_mac-Keeps :
      {F : Frame (State Frags W)}
      → ((s : State Frags W) (mac : Bytes) → F.Rel s (record s { client_mac_address = some mac }))
      → Keeps F (get_device_mac ext)
  unfolding get_device_mac
  get_device_mac-Keeps {F = F} h = record {
    at = λ s. (known_mac-Keeps {F = F} h s.client_mac_address).at s;
  }
