-- ===== src/Config/Race/Laws.antt =====
-- What two interleaved calls of `get_password` return.
use mathlib.Core.Path.{subst}
use rustdesk_server_demo.Prelude.{
  ◌≤◌, arith, ℕ, ◌≡◌, refl, sym, ap, Bool, true, false, not, ◌⊎◌, inl, inr, String, List, ◌∷◌,
  if◌then◌else◌,
}
use rustdesk_server_demo.Prelude.Strings.{is_empty}
use rustdesk_server_demo.Config.{Config, Confy, State}
use rustdesk_server_demo.Config.Stable.{is_empty-get_auto_password, password-set_password}
use rustdesk_server_demo.Config.Race.{Threads, start, chosen, returned, begin, turn, run, own}
use rustdesk_server_demo.Config.Race.Turns.{turns, returned_at, first-run, second-run}
use rustdesk_server_demo.Config.Race.Kept.{Has, Agreed, run-Agreed, Split, IsSplit, run-IsSplit}

module _ {File : Type 0} (confy : Confy Config File) (draw draw' : ℕ → ℕ) where
  module _ (self : State File) (empty : is_empty self.config.password ≡ true) where
    abbrev pub mine : Bool → String
    mine b = own confy draw draw' b

    abbrev pub after : Bool → Bool → List Bool → Threads File
    after b c bs = run confy draw draw' (begin self) (b ∷ c ∷ bs)

    abbrev looked : Bool → Threads File
    looked true = record { first = chosen (mine true); second = start; shared = self }
    looked false = record { first = start; second = chosen (mine false); shared = self }

    -- The first turn only looks.
    turn-begin : (b : Bool) → turn confy draw draw' (begin self) b ≡ looked b
    unfolding turn
    turn-begin true =
        ap
          (λ e. record {
            first = if e then chosen (mine true) else returned self.config.password;
            second = start;
            shared = self;
          })
          empty
    turn-begin false =
        ap
          (λ e. record {
            first = start;
            second = if e then chosen (mine false) else returned self.config.password;
            shared = self;
          })
          empty

    looked-Agreed :
        (b : Bool) → Agreed confy draw draw' (mine b) (turn confy draw draw' (looked b) b)
    unfolding turn
    looked-Agreed true = record {
      first = refl;
      second = tt;
      set = password-set_password confy self (mine true);
      made = is_empty-get_auto_password draw;
    }
    looked-Agreed false = record {
      first = tt;
      second = refl;
      set = password-set_password confy self (mine false);
      made = is_empty-get_auto_password draw';
    }

    looked-IsSplit :
        (b : Bool) → IsSplit confy draw draw' (turn confy draw draw' (looked b) (not b))
    unfolding turn
    looked-IsSplit true =
        subst
          (λ e.
            Split confy draw draw' (chosen (mine true))
              (if e then chosen (mine false) else returned self.config.password)
              self.config.password)
          (sym empty) (refl, refl)
    looked-IsSplit false =
        subst
          (λ e.
            Split confy draw draw' (if e then chosen (mine true) else returned self.config.password)
              (chosen (mine false)) self.config.password)
          (sym empty) (refl, refl)

    -- What two calls of `get_password` come to.
    abbrev pub Same : Bool → Bool → String → String → Threads File → Type 0
    Same b c x y t = (b ≡ c) × (x ≡ mine b) × (y ≡ mine b) × (t.shared.config.password ≡ mine b)

    abbrev pub Torn : Bool → Bool → String → String → Threads File → Type 0
    Torn b c x y t =
        (c ≡ not b)
        × (x ≡ mine true)
        × (y ≡ mine false)
        × ((t.shared.config.password ≡ mine true) ⊎ (t.shared.config.password ≡ mine false))

    two_returned :
        (b c : Bool) (bs : List Bool) (x y : String)
        → (after b c bs).first ≡ returned x
        → (after b c bs).second ≡ returned y
        → Same b c x y (after b c bs) ⊎ Torn b c x y (after b c bs)
    unfolding run
    two_returned b c bs x y done done' = by_turns b c done done'
      where
        agreed : (b' : Bool) → Agreed confy draw draw' (mine b') (after b' b' bs)
        agreed b' =
            run-Agreed confy draw draw' (mine b')
              (turn confy draw draw' (turn confy draw draw' (begin self) b') b') bs
              (subst (λ t. Agreed confy draw draw' (mine b') (turn confy draw draw' t b'))
                (sym (turn-begin b')) (looked-Agreed b'))

        split : (b' : Bool) → IsSplit confy draw draw' (after b' (not b') bs)
        split b' =
            run-IsSplit confy draw draw'
              (turn confy draw draw' (turn confy draw draw' (begin self) b') (not b')) bs
              (subst (λ t. IsSplit confy draw draw' (turn confy draw draw' t (not b')))
                (sym (turn-begin b')) (looked-IsSplit b'))

        same :
            (b' : Bool)
            → (after b' b' bs).first ≡ returned x
            → (after b' b' bs).second ≡ returned y
            → Same b' b' x y (after b' b' bs)
        same b' e e' = (
          refl,
          subst (Has confy draw draw' (mine b')) e (agreed b').first,
          subst (Has confy draw draw' (mine b')) e' (agreed b').second,
          (agreed b').set,
        )

        torn :
            (b' : Bool)
            → (after b' (not b') bs).first ≡ returned x
            → (after b' (not b') bs).second ≡ returned y
            → Torn b' (not b') x y (after b' (not b') bs)
        torn b' e e' =
            let t = after b' (not b') bs in
            let (hx, hy, set) =
              subst (λ q. Split confy draw draw' (returned x) q t.shared.config.password) e'
                (subst (λ p. Split confy draw draw' p t.second t.shared.config.password) e
                  (split b')) in
            (refl, hx, hy, set)

        by_turns :
            (b' c' : Bool)
            → (after b' c' bs).first ≡ returned x
            → (after b' c' bs).second ≡ returned y
            → Same b' c' x y (after b' c' bs) ⊎ Torn b' c' x y (after b' c' bs)
        by_turns true true e e' = inl (same true e e')
        by_turns false false e e' = inl (same false e e')
        by_turns true false e e' = inr (torn true e e')
        by_turns false true e e' = inr (torn false e e')

    -- Two threads call `get_password` while no password is set, and take turns at its locks in any order,
    -- each two turns or more. Both return. If the thread that has the first turn has the second too,
    -- both return its password, and that is set. If the other has the second turn, each returns a
    -- password of its own, whatever the order of the rest, and one of these is set.
    pub two_calls :
        (b c : Bool) (bs : List Bool)
        → 2 ≤ turns true (b ∷ c ∷ bs)
        → 2 ≤ turns false (b ∷ c ∷ bs)
        → (x : String) × (y : String) × ((after b c bs).first ≡ returned x)
          × ((after b c bs).second ≡ returned y)
          × (Same b c x y (after b c bs) ⊎ Torn b c x y (after b c bs))
    two_calls b c bs enough enough' =
        let (x, done) =
          returned_at (after b c bs).first
            (omega (arith, first-run confy draw draw' (begin self) (b ∷ c ∷ bs), enough)) in
        let (y, done') =
          returned_at (after b c bs).second
            (omega (arith, second-run confy draw draw' (begin self) (b ∷ c ∷ bs), enough')) in
        (x, y, done, done', two_returned b c bs x y done done')
