-- ===== src/Config/Latency.antt =====
-- `update_latency` turns to the server that answers fastest.
use mathlib.Core.Path.{subst}
use rustdesk_server_demo.Prelude.{
  ◌≡◌, refl, ap, ◌∙◌, Bool, true, false, ◌&&◌, ◌⊎◌, inl, inr, String, [], ◌∷◌, eq_iff,
  if◌then◌else◌, All, arith,
}
use rustdesk_server_demo.Prelude.HashMap
use rustdesk_server_demo.Prelude.HashMap.{HashMap}
use rustdesk_server_demo.Prelude.Int.{ℤ, pos, negsuc, less}
use rustdesk_server_demo.Prelude.Strings.{is_empty}
use rustdesk_server_demo.Config.{Config2, Confy, State, store2}
use rustdesk_server_demo.Config.Servers.{fastest, i64_max, use_server, update_latency}

abbrev pub Member : String × ℤ → HashMap ℤ → Type 0
Member e [] = ⊥
Member e (x ∷ m) = (e ≡ x) ⊎ Member e m

-- A host that has answered, in less than `delay`.
abbrev pub beats : ℤ → String × ℤ → Bool
beats delay e = less (pos 0) e.1 && less e.1 delay

abbrev pub Unbeaten : ℤ → HashMap ℤ → Type 0
Unbeaten delay m = All (λ e. beats delay e ≡ false) m

less_weaken :
    (host : String) (e delay least : ℤ)
    → beats delay (host, e) ≡ false
    → less delay least ≡ false
    → beats least (host, e) ≡ false
less_weaken host (negsuc e) delay least h le = refl
less_weaken host (pos e) (pos d) (pos l) h le = ground arith
less_weaken host (pos e) (negsuc d) (pos l) h le = absurd (ground arith)
less_weaken host (pos e) (pos d) (negsuc l) h le = ground arith
less_weaken host (pos e) (negsuc d) (negsuc l) h le = ground arith

less_chain : (a b c : ℤ) → less b a ≡ true → less b c ≡ false → less a c ≡ false
less_chain (pos a) (pos b) (pos c) h le = ground arith
less_chain (pos a) (pos b) (negsuc c) h le = refl
less_chain (pos a) (negsuc b) (pos c) h le = absurd (ground arith)
less_chain (pos a) (negsuc b) (negsuc c) h le = refl
less_chain (negsuc a) (pos b) c h le = absurd (ground arith)
less_chain (negsuc a) (negsuc b) (pos c) h le = absurd (ground arith)
less_chain (negsuc a) (negsuc b) (negsuc c) h le = ground arith

less_irrefl : (a : ℤ) → less a a ≡ false
less_irrefl (pos a) = ground arith
less_irrefl (negsuc a) = ground arith

-- What the pass leaves is the start or an entry that beats it, and no entry beats it.
abbrev Passed : HashMap ℤ → String × ℤ → String × ℤ → Type 0
Passed m best last =
    ((last ≡ best) ⊎ (Member last m × (beats best.1 last ≡ true)))
    × Unbeaten last.1 m
    × (less best.1 last.1 ≡ false)

less_trans : (a b c : ℤ) → less a b ≡ true → less b c ≡ true → less a c ≡ true
less_trans (pos a) (pos b) (pos c) h h' = ground arith
less_trans (pos a) (negsuc b) c h h' = absurd (ground arith)
less_trans (pos a) (pos b) (negsuc c) h h' = absurd (ground arith)
less_trans (negsuc a) b (pos c) h h' = refl
less_trans (negsuc a) (pos b) (negsuc c) h h' = absurd (ground arith)
less_trans (negsuc a) (negsuc b) (negsuc c) h h' = ground arith

both : (a b : Bool) → (a && b) ≡ true → (a ≡ true) × (b ≡ true)
both true true h = (refl, refl)
both true false h = absurd (ground arith)
both false b h = absurd (ground arith)

and_true : (a b : Bool) → a ≡ true → b ≡ true → (a && b) ≡ true
and_true a b h h' = rw h (rw h' refl)

and_false : (a b : Bool) → b ≡ false → (a && b) ≡ false
and_false a b h = ground arith

Passed-taken :
    (m : HashMap ℤ) (e best last : String × ℤ)
    → beats best.1 e ≡ true
    → Passed m e last
    → Passed (e ∷ m) best last
Passed-taken m e best last h (from, unbeaten, least) =
    let faster_e = both _ _ h in
    (
      source from,
      (and_false (less (pos 0) e.1) (less e.1 last.1) least, unbeaten),
      less_chain best.1 e.1 last.1 faster_e.1 least,
    )
  where
    source :
        (last ≡ e) ⊎ (Member last m × (beats e.1 last ≡ true))
        → (last ≡ best) ⊎ (Member last (e ∷ m) × (beats best.1 last ≡ true))
    source (inl same) = inr (inl same, ap (beats best.1) same ∙ h)
    source (inr (member, quick)) = inr (
      inr member,
      and_true _ _ (both _ _ quick).0
          (less_trans last.1 e.1 best.1 (both _ _ quick).1 (both _ _ h).1),
    )

Passed-kept :
    (m : HashMap ℤ) (e best last : String × ℤ)
    → beats best.1 e ≡ false
    → Passed m best last
    → Passed (e ∷ m) best last
Passed-kept m e best last h (from, unbeaten, least) =
    (source from, (less_weaken e.0 e.1 best.1 last.1 h least, unbeaten), least)
  where
    source :
        (last ≡ best) ⊎ (Member last m × (beats best.1 last ≡ true))
        → (last ≡ best) ⊎ (Member last (e ∷ m) × (beats best.1 last ≡ true))
    source (inl same) = inl same
    source (inr (member, quick)) = inr (inr member, quick)

fastest-Passed : (m : HashMap ℤ) (best : String × ℤ) → Passed m best (fastest m best)
unfolding fastest
fastest-Passed [] best = (inl refl, tt, less_irrefl best.1)
fastest-Passed (e ∷ m) best =
    by_test (fastest-Passed m e) (fastest-Passed m best) (beats best.1 e) refl
  where
    by_test :
        Passed m e (fastest m e)
        → Passed m best (fastest m best)
        → (b : Bool) → beats best.1 e ≡ b
        → Passed (e ∷ m) best (fastest m (if b then e else best))
    by_test taken kept true h = Passed-taken m e best (fastest m e) h taken
    by_test taken kept false h = Passed-kept m e best (fastest m best) h kept

named :
    (e : String × ℤ) (m : HashMap ℤ)
    → All (λ x. is_empty x.0 ≡ false) m
    → Member e m
    → is_empty e.0 ≡ false
named e [] _ here = absurd here
named e (x ∷ m) (h, hs) (inl same) = ap (λ y. is_empty y.0) same ∙ h
named e (x ∷ m) (h, hs) (inr later) = named e m hs later

module _ {File : Type 0} (confy2 : Confy Config2 File) where
  use_server-named :
      (s : State File) (host : String)
      → is_empty host ≡ false
      → (use_server confy2 s host).config2.rendezvous_server ≡ host
  unfolding use_server store2
  use_server-named s host h = ground (arith, eq_iff host s.config2.rendezvous_server)

  use_server-empty : (s : State File) → use_server confy2 s "" ≡ s
  unfolding use_server is_empty
  use_server-empty s = refl

  -- `update_latency`, where no host of `ONLINE` has an empty name. With the new latency entered: if no
  -- host has a positive latency (below i64::MAX), the configuration stays; otherwise the rendezvous
  -- server is a host of `ONLINE` with a positive latency, and no positive latency is smaller.
  pub update_latency_lem :
      (s : State File) (host : String) (latency : ℤ)
      → All (λ e. is_empty e.0 ≡ false) (HashMap.insert s.online host latency)
      → let t = update_latency confy2 s host latency in
        (Unbeaten i64_max (HashMap.insert s.online host latency) × (t.config2 ≡ s.config2))
        ⊎ ((delay : ℤ) × Member
              (t.config2.rendezvous_server, delay)
              (HashMap.insert s.online host latency)
            × (beats i64_max (t.config2.rendezvous_server, delay) ≡ true)
            × Unbeaten delay (HashMap.insert s.online host latency))
  unfolding update_latency
  update_latency_lem s host latency names = by_source (fastest-Passed online ("", i64_max))
    where
      online : HashMap ℤ
      online = HashMap.insert s.online host latency

      last : String × ℤ
      last = fastest online ("", i64_max)

      known : State File
      known = record s { online = online }

      by_source :
          Passed online ("", i64_max) last
          → let t = use_server confy2 known last.0 in
            (Unbeaten i64_max online × (t.config2 ≡ s.config2))
            ⊎ ((delay : ℤ) × Member (t.config2.rendezvous_server, delay) online
                × (beats i64_max (t.config2.rendezvous_server, delay) ≡ true)
                × Unbeaten delay online)
      by_source (inl same, unbeaten, _) = inl (
        subst (λ e. Unbeaten e.1 online) same unbeaten,
        ap (λ e. (use_server confy2 known e.0).config2) same
            ∙ ap (λ u. u.config2) (use_server-empty known),
      )
      by_source (inr (member, quick), unbeaten, _) =
          rw (use_server-named known last.0 (named last online names member))
            (inr (last.1, member, quick, unbeaten))
