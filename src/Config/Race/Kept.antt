-- ===== src/Config/Race/Kept.antt =====
-- What the steps of two calls of `get_password` keep.
use mathlib.Core.Path.{subst}
use rustdesk_server_demo.Prelude.{
  ℕ, ◌≡◌, refl, sym, ap, ◌∙◌, Bool, true, false, ◌⊎◌, inl, inr, String, List, [], ◌∷◌,
  if◌then◌else◌,
}
use rustdesk_server_demo.Prelude.Strings.{is_empty}
use rustdesk_server_demo.Config.{Config, Confy, State}
use rustdesk_server_demo.Config.Generate.{get_auto_password}
use rustdesk_server_demo.Config.Stable.{password-set_password}
use rustdesk_server_demo.Config.Race.{Phase, Threads, start, chosen, returned, step, turn, run, own}

module _ {File : Type 0} (confy : Confy Config File) (draw draw' : ℕ → ℕ) where
  -- One password is set, and nobody has another.
  abbrev pub Has : String → Phase → Type 0
  Has a start = Unit
  Has a (chosen x) = ⊥
  Has a (returned x) = x ≡ a

  pub record Agreed (a : String) (t : Threads File) : Type 0 where
    pub first : Has a t.first
    pub second : Has a t.second
    pub set : t.shared.config.password ≡ a
    pub made : is_empty a ≡ false

  step-Has :
      (a : String) (self : State File) (d : ℕ → ℕ) (phase : Phase)
      → self.config.password ≡ a
      → is_empty a ≡ false
      → Has a phase
      → Has a (step confy self d phase).0 × ((step confy self d phase).1 ≡ self)
  unfolding step
  step-Has a self d start set made h = (
    subst (λ b. Has a (if b then chosen (get_auto_password d) else returned self.config.password))
        (sym (ap is_empty set ∙ made)) set,
    refl,
  )
  step-Has a self d (chosen x) set made h = absurd h
  step-Has a self d (returned x) set made h = (h, refl)

  turn-Agreed :
      (a : String) (t : Threads File) (b : Bool) → Agreed a t → Agreed a (turn confy draw draw' t b)
  unfolding turn
  turn-Agreed a t true h =
      let (has, same) = step-Has a t.shared draw t.first h.set h.made h.first in
      record {
        first = has;
        second = h.second;
        set = ap (λ s. s.config.password) same ∙ h.set;
        made = h.made;
      }
  turn-Agreed a t false h =
      let (has, same) = step-Has a t.shared draw' t.second h.set h.made h.second in
      record {
        first = h.first;
        second = has;
        set = ap (λ s. s.config.password) same ∙ h.set;
        made = h.made;
      }

  pub run-Agreed :
      (a : String) (t : Threads File) (bs : List Bool)
      → Agreed a t
      → Agreed a (run confy draw draw' t bs)
  unfolding run
  run-Agreed a t [] h = h
  run-Agreed a t (b ∷ bs) h = run-Agreed a (turn confy draw draw' t b) bs (turn-Agreed a t b h)

  -- Each has its own password, and the one that is set is that of a thread that has returned.
  abbrev pub Split : Phase → Phase → String → Type 0
  Split (chosen x) (chosen y) set =
      (x ≡ own confy draw draw' true) × (y ≡ own confy draw draw' false)
  Split (returned x) (chosen y) set =
      (x ≡ own confy draw draw' true)
      × (y ≡ own confy draw draw' false)
      × (set ≡ own confy draw draw' true)
  Split (chosen x) (returned y) set =
      (x ≡ own confy draw draw' true)
      × (y ≡ own confy draw draw' false)
      × (set ≡ own confy draw draw' false)
  Split (returned x) (returned y) set =
      (x ≡ own confy draw draw' true)
      × (y ≡ own confy draw draw' false)
      × ((set ≡ own confy draw draw' true) ⊎ (set ≡ own confy draw draw' false))
  Split start second set = ⊥
  Split (chosen x) start set = ⊥
  Split (returned x) start set = ⊥

  abbrev pub IsSplit : Threads File → Type 0
  IsSplit t = Split t.first t.second t.shared.config.password

  Split-first :
      (p q : Phase) (self : State File)
      → Split p q self.config.password
      → Split (step confy self draw p).0 q (step confy self draw p).1.config.password
  unfolding step
  Split-first start q self h = absurd h
  Split-first (chosen x) start self h = absurd h
  Split-first (chosen x) (chosen y) self (hx, hy) =
      (hx, hy, password-set_password confy self x ∙ hx)
  Split-first (chosen x) (returned y) self (hx, hy, set) =
      (hx, hy, inl (password-set_password confy self x ∙ hx))
  Split-first (returned x) q self h = h

  Split-second :
      (p q : Phase) (self : State File)
      → Split p q self.config.password
      → Split p (step confy self draw' q).0 (step confy self draw' q).1.config.password
  unfolding step
  Split-second start q self h = absurd h
  Split-second (chosen x) start self h = absurd h
  Split-second (returned x) start self h = absurd h
  Split-second (chosen x) (chosen y) self (hx, hy) =
      (hx, hy, password-set_password confy self y ∙ hy)
  Split-second (returned x) (chosen y) self (hx, hy, set) =
      (hx, hy, inr (password-set_password confy self y ∙ hy))
  Split-second (chosen x) (returned y) self h = h
  Split-second (returned x) (returned y) self h = h

  pub run-IsSplit :
      (t : Threads File) (bs : List Bool) → IsSplit t → IsSplit (run confy draw draw' t bs)
  unfolding run turn
  run-IsSplit t [] h = h
  run-IsSplit t (true ∷ bs) h =
      run-IsSplit (turn confy draw draw' t true) bs (Split-first t.first t.second t.shared h)
  run-IsSplit t (false ∷ bs) h =
      run-IsSplit (turn confy draw draw' t false) bs (Split-second t.first t.second t.shared h)
