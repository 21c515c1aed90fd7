-- ===== src/Client/Address.antt =====
-- `client_mac`: the address that was told once stays.
use rustwall.Base.{◌≡◌, refl, Bytes, Option, none, some, ◌∙◌, arith}
use rustwall.Exec.{ret}
use rustwall.Smoltcp.{Smoltcp}
use rustwall.Externs.{Externs}
use rustwall.State.{State}
use rustwall.Buffer.{get_device_mac, known_mac}
use rustwall.Client.{client_mac}

module _ {Frags W : Type 0} (ext : Externs W) where
  stored_lem :
      (known : Option Bytes) (s t : State Frags W) (mac : Bytes)
      → s.client_mac_address ≡ known
      → known_mac ext known s ≡ ret mac t
      → t.client_mac_address ≡ some mac
  unfolding known_mac
  stored_lem none s t mac h e = ground arith
  stored_lem (some m) s t mac h e = ground arith

module _ {Frag Frags W : Type 0} (net : Smoltcp Frag Frags) (ext : Externs W) where
  -- Once `client_mac` has returned, it returns the same address and changes nothing in every state
  -- in which the address is still stored, whatever the driver would say by then.
  pub client_mac-Stays :
      (s t u : State Frags W) (mac : Bytes)
      → client_mac net ext s ≡ ret mac t
      → u.client_mac_address ≡ t.client_mac_address
      → client_mac net ext u ≡ ret mac u
  unfolding client_mac get_device_mac known_mac
  client_mac-Stays s t u mac e h = rw (h ∙ stored_lem ext s.client_mac_address s t mac refl e) refl
