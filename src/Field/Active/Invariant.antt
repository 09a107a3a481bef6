-- ===== src/Field/Active/Invariant.antt =====
-- What holds of the active context field (clc/field/active_context_field.py) after any calls.
use rnde_m.Prelude.{
  ℕ, ◌≡◌, ◌≢◌, refl, sym, subst, true, Option, none, some, List, [], ◌∷◌, All, Pairwise, arith,
  Result, ok, raised, Bool-cases, Option-cases, inl, inr, Text, eq_text, eq_text_iff, codes, ◌-◌,
  ◌&&◌, not,
}
use rnde_m.Prelude.Floats.{Floats, max_f, clamp, clamp_bounds}
use rnde_m.Field.Active.{
  ActivePattern, Patterns, find, store, remove, Activation, activation_for_mode, new_pattern,
  renewed, activate, activate_to, activate_over, decayed, decayed_at, decay_all, suppress,
  suppress_found,
}

module _ (F : Floats) where
  open F use {Float, zero_f, one_f, hundredth_f, le_f, add_f, sub_f, mul_f, from_int}

  -- An entry is filed under its own id, with an activation of the unit interval.
  pub record IsFiled (e : Text × ActivePattern Float) : Type 0 where
    pub own_id : e.1.pattern_id ≡ e.0
    pub not_below : le_f zero_f e.1.activation ≡ true
    pub not_above : le_f e.1.activation one_f ≡ true

  abbrev Other : Text → Text × ActivePattern Float → Type 0
  Other id e = id ≢ e.0

  abbrev pub Distinct : Text × ActivePattern Float → Text × ActivePattern Float → Type 0
  Distinct d e = d.0 ≢ e.0

  pub record IsField (s : Patterns Float) : Type 0 where
    pub filed : All IsFiled s
    pub distinct : Pairwise Distinct s

  Other-store :
      (k id : Text) (p : ActivePattern Float) (s : Patterns Float)
      → k ≢ id
      → All (Other k) s
      → All (Other k) (store id p s)
  unfolding store
  Other-store k id p [] h a = (h, tt)
  Other-store k id p ((j, q) ∷ rest) h a = elim (Bool-cases (eq_text j id)) [
    | inl same ↦ rw same a
    | inr other ↦ rw other (a.0, Other-store k id p rest h a.1)
  ]

  All-store :
      (id : Text) (p : ActivePattern Float) (s : Patterns Float)
      → IsFiled (id, p)
      → All IsFiled s
      → All IsFiled (store id p s)
  unfolding store
  All-store id p [] h a = (h, tt)
  All-store id p ((j, q) ∷ rest) h a = elim (Bool-cases (eq_text j id)) [
    | inl same ↦ rw same (subst (λ k. IsFiled (k, p)) (sym ((eq_text_iff j id).0 same)) h, a.1)
    | inr other ↦ rw other (a.0, All-store id p rest h a.1)
  ]

  Distinct-store :
      (id : Text) (p : ActivePattern Float) (s : Patterns Float)
      → Pairwise Distinct s
      → Pairwise Distinct (store id p s)
  unfolding store
  Distinct-store id p [] h = (tt, tt)
  Distinct-store id p ((j, q) ∷ rest) h = elim (Bool-cases (eq_text j id)) [
    | inl same ↦ rw same h
    | inr other ↦
        let differs : j ≢ id = λ e. absurd (ground (arith, eq_text_iff j id, e)) in
        rw other (Other-store j id p rest differs h.0, Distinct-store id p rest h.1)
  ]

  store-IsField :
      (id : Text) (p : ActivePattern Float) (s : Patterns Float)
      → IsFiled (id, p)
      → IsField s
      → IsField (store id p s)
  store-IsField id p s h k = record {
    filed = All-store id p s h k.filed;
    distinct = Distinct-store id p s k.distinct;
  }

  Other-remove : (k id : Text) (s : Patterns Float) → All (Other k) s → All (Other k) (remove id s)
  unfolding remove
  Other-remove k id [] a = tt
  Other-remove k id ((j, q) ∷ rest) a = elim (Bool-cases (eq_text j id)) [
    | inl same ↦ rw same a.1
    | inr other ↦ rw other (a.0, Other-remove k id rest a.1)
  ]

  remove-IsField : (id : Text) (s : Patterns Float) → IsField s → IsField (remove id s)
  unfolding remove
  remove-IsField id [] h = h
  remove-IsField id ((j, q) ∷ rest) h =
      let tail : IsField rest = record { filed = h.filed.1; distinct = h.distinct.1 } in
      elim (Bool-cases (eq_text j id)) [
        | inl same ↦ rw same tail
        | inr other ↦
            let kept = remove-IsField id rest tail in
            rw other (record {
              filed = (h.filed.0, kept.filed);
              distinct = (Other-remove j id rest h.distinct.0, kept.distinct);
            })
      ]

  find-IsFiled :
      (id : Text) (s : Patterns Float) (p : ActivePattern Float)
      → find id s ≡ some p
      → All IsFiled s
      → IsFiled (id, p)
  unfolding find
  find-IsFiled id [] p e h = absurd (cc)
  find-IsFiled id ((j, q) ∷ rest) p e h = elim (Bool-cases (eq_text j id)) [
    | inl same ↦
        let found : q ≡ p = ground arith in
        subst (λ k. IsFiled (k, p)) ((eq_text_iff j id).0 same)
          (subst (λ x. IsFiled (j, x)) found h.0)
    | inr other ↦ find-IsFiled id rest p (ground arith) h.1
  ]

  clamped :
      (id : Text) (p : ActivePattern Float) (v : Float)
      → p.pattern_id ≡ id
      → p.activation ≡ clamp F v
      → IsFiled (id, p)
  clamped id p v h e = record {
    own_id = h;
    not_below = rw e (clamp_bounds F v).0;
    not_above = rw e (clamp_bounds F v).1;
  }

  for_mode-clamp :
      (old amount activation : Float) (mode : Text)
      → activation_for_mode F old amount mode ≡ ok activation
      → (v : Float) × (activation ≡ clamp F v)
  unfolding activation_for_mode
  for_mode-clamp old amount activation mode h =
      elim (Bool-cases (eq_text mode (codes "reinforce"))) [
        | inl reinforces ↦ (add_f old (mul_f amount (sub_f one_f old)), ground arith)
        | inr other ↦ elim (Bool-cases (eq_text mode (codes "set"))) [
          | inl sets ↦ (amount, ground arith)
          | inr other' ↦ (max_f F old amount, ground arith)
        ]
      ]

  activate_to-IsField :
      (r : Result Float) (p : ActivePattern Float) (id : Text) (amount : Float) (a : Activation F)
      (s : Patterns Float)
      → activation_for_mode F p.activation amount a.mode ≡ r
      → p.pattern_id ≡ id
      → IsField s
      → IsField (activate_to F r p id a s).1
  activate_to-IsField (raised x) p id amount a s e own h = h
  activate_to-IsField (ok activation) p id amount a s e own h =
      let (v, is_clamp) = for_mode-clamp p.activation amount activation a.mode e in
      store-IsField id (renewed F p activation a) s
        (clamped id (renewed F p activation a) v own is_clamp) h

  activate_over-IsField :
      (o : Option (ActivePattern Float)) (id : Text) (amount : Float) (a : Activation F)
      (s : Patterns Float)
      → find id s ≡ o
      → IsField s
      → IsField (activate_over F o id (clamp F amount) a s).1
  activate_over-IsField none id amount a s e h =
      store-IsField id (new_pattern F id (clamp F amount) a) s
        (clamped id (new_pattern F id (clamp F amount) a) amount refl refl) h
  activate_over-IsField (some p) id amount a s e h =
      activate_to-IsField (activation_for_mode F p.activation (clamp F amount) a.mode) p id
        (clamp F amount) a s refl (find-IsFiled id s p e h.filed).own_id h

  activate-IsField :
      (id : Text) (amount : Float) (a : Activation F) (s : Patterns Float)
      → IsField s
      → IsField (activate F id amount a s).1
  unfolding activate
  activate-IsField id amount a s h =
      elim (Bool-cases (le_f (clamp F amount) zero_f && not (eq_text a.mode (codes "set")))) [
        | inl idle ↦ rw idle h
        | inr acts ↦ rw acts (activate_over-IsField (find id s) id amount a s refl h)
      ]

  Other-decay :
      (tick : ℕ) (k : Text) (s : Patterns Float)
      → All (Other k) s
      → All (Other k) (decay_all F tick s)
  unfolding decay_all
  Other-decay tick k [] a = tt
  Other-decay tick k ((j, q) ∷ rest) a = elim (Option-cases (decayed F tick q)) [
    | inl gone ↦ rw gone (Other-decay tick k rest a.1)
    | inr (p, left) ↦ rw left (a.0, Other-decay tick k rest a.1)
  ]

  decayed-IsFiled :
      (tick : ℕ) (id : Text) (q p : ActivePattern Float)
      → decayed F tick q ≡ some p
      → IsFiled (id, q)
      → IsFiled (id, p)
  unfolding decayed
  decayed-IsFiled tick id q p e h = record {
    own_id = ground arith;
    not_below = ground (
      arith,
      clamp_bounds F (
          sub_f q.activation (
            mul_f q.decay_rate (from_int (tick - decayed_at q.last_decay_tick q.updated_at_tick)))),
    );
    not_above = ground (
      arith,
      clamp_bounds F (
          sub_f q.activation (
            mul_f q.decay_rate (from_int (tick - decayed_at q.last_decay_tick q.updated_at_tick)))),
    );
  }

  decay_all-IsField : (tick : ℕ) (s : Patterns Float) → IsField s → IsField (decay_all F tick s)
  unfolding decay_all
  decay_all-IsField tick [] h = h
  decay_all-IsField tick ((j, q) ∷ rest) h =
      let tail =
        decay_all-IsField tick rest (record { filed = h.filed.1; distinct = h.distinct.1 }) in
      elim (Option-cases (decayed F tick q)) [
        | inl gone ↦ rw gone tail
        | inr (p, left) ↦ rw left (record {
          filed = (decayed-IsFiled tick j q p left h.filed.0, tail.filed);
          distinct = (Other-decay tick j rest h.distinct.0, tail.distinct);
        })
      ]

  suppress_found-IsField :
      (o : Option (ActivePattern Float)) (id : Text) (amount : Float) (s : Patterns Float)
      → find id s ≡ o
      → IsField s
      → IsField (suppress_found F o id amount s)
  suppress_found-IsField none id amount s e h = h
  suppress_found-IsField (some p) id amount s e h =
      let raw = mul_f p.activation (sub_f one_f (clamp F amount)) in
      elim (Bool-cases (le_f (clamp F raw) hundredth_f)) [
        | inl low ↦ rw low (remove-IsField id s h)
        | inr high ↦ rw high (
            store-IsField id (record p { activation = clamp F raw }) s
              (clamped id (record p { activation = clamp F raw }) raw
                (find-IsFiled id s p e h.filed).own_id refl)
              h)
      ]

  -- The calls that change the field.
  pub data Call : Type 0 where
    activates : Text → Float → Activation F → Call
    decays : ℕ → Call
    suppresses : Text → Float → Call

  unfoldable pub serve : Call → Patterns Float → Patterns Float
  serve (activates id amount a) s = (activate F id amount a s).1
  serve (decays tick) s = decay_all F tick s
  serve (suppresses id amount) s = suppress F id amount s

  unfoldable pub serve_all : List Call → Patterns Float → Patterns Float
  unfolding serve
  serve_all [] s = s
  serve_all (c ∷ cs) s = serve_all cs (serve c s)

  serve-IsField : (c : Call) (s : Patterns Float) → IsField s → IsField (serve c s)
  unfolding serve suppress
  serve-IsField (activates id amount a) s h = activate-IsField id amount a s h
  serve-IsField (decays tick) s h = decay_all-IsField tick s h
  serve-IsField (suppresses id amount) s h = suppress_found-IsField (find id s) id amount s refl h

  serve_all-keeps : (cs : List Call) (s : Patterns Float) → IsField s → IsField (serve_all cs s)
  unfolding serve_all
  serve_all-keeps [] s h = h
  serve_all-keeps (c ∷ cs) s h = serve_all-keeps cs (serve c s) (serve-IsField c s h)

  -- After any calls on an empty field, whether they raise or not, every pattern is filed under its
  -- own id, no two patterns have one id, and every activation lies in the unit interval.
  pub serve_all-IsField : (cs : List Call) → IsField (serve_all cs [])
  serve_all-IsField cs = serve_all-keeps cs [] (record { filed = tt; distinct = tt })
