-- ===== src/Config/Race.antt =====
-- Two threads in `Config::get_password`: it holds the lock of `CONFIG` while it reads the password and
-- again while it sets one, and not in between.
pub mod Kept
pub mod Turns
pub mod Laws
use mathlib.Core.Path.{subst}
use rustdesk_server_demo.Prelude.{
  ℕ, ◌≡◌, ◌≢◌, refl, sym, ap, ◌∙◌, Bool, true, false, not, ◌⊎◌, inl, inr, String, List, [], ◌∷◌,
  if◌then◌else◌,
}
use rustdesk_server_demo.Prelude.Strings.{is_empty}
use rustdesk_server_demo.Config.{Config, Confy, State}
use rustdesk_server_demo.Config.Setters.{set_password}
use rustdesk_server_demo.Config.Generate.{get_auto_password}
use rustdesk_server_demo.Config.Stable.{is_empty-get_auto_password, password-set_password}

-- Where a thread is: before the first lock, between the locks with the password that it made, and at
-- the end with what it returns.
pub data Phase : Type 0 where
  start : Phase
  chosen returned : String → Phase

-- The first thread is `true`.
pub record Threads (File : Type 0) : Type 0 where
  pub first : Phase
  pub second : Phase
  pub shared : State File

-- Both threads are about to call.
abbrev pub begin : {File : Type 0} → State File → Threads File
begin self = record { first = start; second = start; shared = self }

module _ {File : Type 0} (confy : Confy Config File) where
  -- What a thread does next under the lock.
  unfoldable pub step : State File → (ℕ → ℕ) → Phase → Phase × State File
  step self draw start = (
    if is_empty self.config.password
        then chosen (get_auto_password draw)
        else returned self.config.password,
    self,
  )
  step self draw (chosen password) = (returned password, set_password confy self password)
  step self draw (returned password) = (returned password, self)

  module _ (draw draw' : ℕ → ℕ) where
    unfoldable pub turn : Threads File → Bool → Threads File
    unfolding step
    turn t true =
        let (phase, self) = step t.shared draw t.first in
        record { first = phase; second = t.second; shared = self }
    turn t false =
        let (phase, self) = step t.shared draw' t.second in
        record { first = t.first; second = phase; shared = self }

    -- A schedule says whose turn it is.
    unfoldable pub run : Threads File → List Bool → Threads File
    unfolding turn
    run t [] = t
    run t (b ∷ bs) = run (turn t b) bs

    abbrev pub own : Bool → String
    own true = get_auto_password draw
    own false = get_auto_password draw'
