-- ===== src/Config/Race/Turns.antt =====
-- That two turns are enough for a call of `get_password`.
use rustdesk_server_demo.Prelude.{
  ℕ, ◌+◌, ◌-◌, ◌≤◌, ◌≡◌, refl, Bool, true, false, String, List, [], ◌∷◌, if◌then◌else◌, arith,
}
use rustdesk_server_demo.Prelude.Strings.{is_empty}
use rustdesk_server_demo.Config.{Config, Confy, State}
use rustdesk_server_demo.Config.Generate.{get_auto_password}
use rustdesk_server_demo.Config.Race.{Phase, Threads, start, chosen, returned, step, turn, run}

-- How many turns a thread takes still, at most.
abbrev pub ahead : Phase → ℕ
ahead start = 2
ahead (chosen x) = 1
ahead (returned x) = 0

unfoldable pub turns : Bool → List Bool → ℕ
turns b [] = 0
turns true (true ∷ bs) = 1 + turns true bs
turns true (false ∷ bs) = turns true bs
turns false (true ∷ bs) = turns false bs
turns false (false ∷ bs) = 1 + turns false bs

pub returned_at : (p : Phase) → ahead p ≤ 0 → (x : String) × (p ≡ returned x)
returned_at start h = absurd (omega (arith, h))
returned_at (chosen x) h = absurd (omega (arith, h))
returned_at (returned x) h = (x, refl)

module _ {File : Type 0} (confy : Confy Config File) (draw draw' : ℕ → ℕ) where
  ahead-step :
      (self : State File) (d : ℕ → ℕ) (p : Phase) → ahead (step confy self d p).0 ≤ ahead p - 1
  unfolding step
  ahead-step self d start = by_test (is_empty self.config.password)
    where
      by_test :
          (b : Bool)
          → ahead (if b then chosen (get_auto_password d) else returned self.config.password) ≤ 1
      by_test true = omega arith
      by_test false = omega arith
  ahead-step self d (chosen x) = omega arith
  ahead-step self d (returned x) = omega arith

  pub first-run :
      (t : Threads File) (bs : List Bool)
      → ahead (run confy draw draw' t bs).first ≤ ahead t.first - turns true bs
  unfolding run turn turns
  first-run t [] = omega arith
  first-run t (true ∷ bs) =
      omega (arith, first-run (turn confy draw draw' t true) bs, ahead-step t.shared draw t.first)
  first-run t (false ∷ bs) = first-run (turn confy draw draw' t false) bs

  pub second-run :
      (t : Threads File) (bs : List Bool)
      → ahead (run confy draw draw' t bs).second ≤ ahead t.second - turns false bs
  unfolding run turn turns
  second-run t [] = omega arith
  second-run t (true ∷ bs) = second-run (turn confy draw draw' t true) bs
  second-run t (false ∷ bs) =
      omega
        (arith, second-run (turn confy draw draw' t false) bs, ahead-step t.shared draw' t.second)
