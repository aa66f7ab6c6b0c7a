-- ===== src/Shared/Ccf/Live.antt =====
-- shared/ccf_network.cpp: there is always a node to ask.
use disk_tees.Prelude.{
  ℕ, zero, suc, ℤ, pos, ◌==ℤ◌, ◌≢◌, refl, Bool, true, false, Option, none, some, [], ◌∷◌, Bytes,
  Outcome, ok, threw, exited, out_of_fuel, undefined, Bool-cases, inl, inr, if◌then◌else◌, codes,
}
use disk_tees.Shared.NetworkConfig.{Addresses}
use disk_tees.Shared.Os.{Os, Syscall}
use disk_tees.Shared.Ccf.{
  CcfNetwork, back, pop_back, mark_last_address_dead, curl_successful, attempt, remove_output_file,
  request, get_cert,
}

-- There is a node that is not marked dead, and one to start over with.
unfoldable pub IsLive : CcfNetwork → Type 0
IsLive c = (c.live_addresses ≢ []) × (c.ccf_addresses ≢ [])

back_some : (as' : Addresses) → as' ≢ [] → back as' ≢ none
unfolding back
back_some [] h e = h refl
back_some (a ∷ []) h e = cc
back_some (a ∷ b ∷ as') h e = back_some (b ∷ as') (λ x. cc) e

marked-IsLive :
    (c : CcfNetwork) (left : Addresses)
    → IsLive c
    → IsLive (elim left [
      | [] ↦ record c { live_addresses = c.ccf_addresses }
      | a ∷ rest ↦ record c { live_addresses = a ∷ rest }
    ])
unfolding IsLive
marked-IsLive c [] h = (h.1, h.1)
marked-IsLive c (a ∷ rest) h = ((λ e. cc), h.1)

mark_last_address_dead-IsLive : (c : CcfNetwork) → IsLive c → IsLive (mark_last_address_dead c)
unfolding mark_last_address_dead
mark_last_address_dead-IsLive c h = marked-IsLive c (pop_back c.live_addresses) h

-- It ends, if it ends, with a node to ask, and not in undefined behaviour.
pub EndsLive : {W : Type 0} → Outcome (CcfNetwork × W) → Type 0
EndsLive (ok s) = IsLive s.0
EndsLive (threw s) = IsLive s.0
EndsLive exited = Unit
EndsLive out_of_fuel = Unit
EndsLive undefined = ⊥

module _ {W : Type 0} (os : Os W) where
  attempt-IsLive :
      (output_file : Bytes) (command : Bytes → Bytes) (address : Bytes) (c : CcfNetwork) (w : W)
      → IsLive c
      → IsLive (attempt os output_file command address (c, w)).1
  unfolding attempt curl_successful
  attempt-IsLive output_file command address c w h =
      elim (Bool-cases (
        (os.sys (Syscall.system (command address)) (os.sys (Syscall.remove output_file) w).1).0.ret
        ==ℤ pos 0)) [ inl good ↦ rw good h | inr bad ↦ rw bad (mark_last_address_dead-IsLive c h) ]

  decided :
      (b : Bool) (s : CcfNetwork × W) (rest : Outcome (CcfNetwork × W))
      → IsLive s.0
      → EndsLive rest
      → EndsLive (if b then ok s else rest)
  unfolding EndsLive
  decided true s rest h k = h
  decided false s rest h k = k

  -- One round, of a loop that ends well from there.
  round-EndsLive :
      (fuel : ℕ) (output_file : Bytes) (command : Bytes → Bytes) (c : CcfNetwork) (w : W)
      → ((d : CcfNetwork) (v : W)
          → IsLive d
          → EndsLive (request os fuel output_file command (d, v)))
      → IsLive c
      → (o : Option Bytes) → o ≢ none
      → EndsLive (elim o as (λ _. Outcome (CcfNetwork × W)) [
        | none ↦ undefined
        | some address ↦
            let (done, c', w') = attempt os output_file command address (c, w) in
            let rest = request os fuel output_file command (c', w') in
            if done then ok (c', w') else rest
      ])
  round-EndsLive fuel output_file command c w ih h none k = absurd (k refl)
  round-EndsLive fuel output_file command c w ih h (some address) k =
      let a = attempt os output_file command address (c, w) in
      let live = attempt-IsLive output_file command address c w h in
      decided a.0 (a.1, a.2) (request os fuel output_file command (a.1, a.2)) live (ih a.1 a.2 live)

  request-EndsLive :
      (fuel : ℕ) (output_file : Bytes) (command : Bytes → Bytes) (c : CcfNetwork) (w : W)
      → IsLive c
      → EndsLive (request os fuel output_file command (c, w))
  unfolding request EndsLive IsLive
  request-EndsLive zero output_file command c w h = tt
  request-EndsLive (suc fuel) output_file command c w h =
      round-EndsLive fuel output_file command c w (request-EndsLive fuel output_file command) h
        (back c.live_addresses) (back_some c.live_addresses h.0)

  cleaned :
      (file : Bytes) (m : Outcome (CcfNetwork × W))
      → EndsLive m
      → EndsLive (elim m as (λ _. Outcome (CcfNetwork × W)) [
        | ok t ↦ ok (remove_output_file os file t)
        | other ↦ other
      ])
  unfolding EndsLive
  cleaned file (ok s) h = h
  cleaned file (threw s) h = h
  cleaned file exited h = tt
  cleaned file out_of_fuel h = tt
  cleaned file undefined h = h

-- While there is a node that is not marked dead, and one to start over with, `getCert` never asks `back` of an
-- empty vector, however often the nodes fail, and where it returns it leaves such a node behind.
pub get_cert_asks :
    {W : Type 0} (os : Os W) (fuel : ℕ) (id : ℤ) (name type : Bytes) (c : CcfNetwork) (w : W)
    → IsLive c
    → EndsLive (get_cert os fuel id name type (c, w))
unfolding get_cert
get_cert_asks os fuel id name type c w h =
    cleaned os (codes "get_cert.json") (request os fuel (codes "get_cert.json") _ (c, w))
      (request-EndsLive os fuel _ _ c w h)
