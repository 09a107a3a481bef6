-- ===== src/Runtime/Metadata/Laws.antt =====
-- How long an entry is seen, and what expiry takes away.
use rnde_m.Prelude.{
  ◌>>=◌, ℕ, ◌+◌, ◌≤◌, ◌<◌, ◌≡◌, refl, Bool, true, not, Option, some, List, [], ◌∷◌, ◌++◌, arith,
  length, select, select-select, pos, Result, ok, raised, Result-cases, non_negative, inl, inr,
  Text, Bool-cases,
}
use rnde_m.Runtime.Metadata.{
  MetadataEntry, Placement, PlacementRequest, is_expired, allows, list_active_metadata,
  expire_metadata, place_temporary_metadata, entry_of, make_entry, draft, given,
}

length-select :
    {A : Type 0} (p : A → Bool) (xs : List A)
    → length (select p xs) + length (select (λ x. not (p x)) xs) ≡ length xs
length-select p [] = omega arith
length-select p (x ∷ xs) = ground (arith, length-select p xs)

later_expired :
    (t u : ℕ) (e : MetadataEntry ℕ)
    → t ≤ u
    → not (is_expired u e) ≡ true
    → not (is_expired t e) ≡ true
unfolding is_expired
later_expired t u e h live = ground arith

still_listed :
    (t u : ℕ) (es : List (MetadataEntry ℕ))
    → t ≤ u
    → select (λ e. not (is_expired u e)) (select (λ e. not (is_expired t e)) es)
      ≡ select (λ e. not (is_expired u e)) es
still_listed t u es h =
    select-select (λ e. not (is_expired u e)) (λ e. not (is_expired t e)) es
      (λ e live. later_expired t u e h live)

listing_kept :
    (p : Placement) (asker : Option Text) (t u : ℕ)
    → t ≤ u
    → list_active_metadata
        (pos u)
        asker
        (record p { entries = select (λ e. not (is_expired t e)) p.entries })
      ≡ list_active_metadata (pos u) asker p
unfolding list_active_metadata
listing_kept p asker t u h = rw (still_listed t u p.entries h) refl

-- Expiry at a tick takes no entry away that a listing at that tick or a later one would show: with
-- any authority, the listing is the same before and after it. And no entry is lost: those that are
-- returned and those that stay are together as many as before.
pub expire_unseen :
    (p : Placement) (authority asker : Option Text) (t u : ℕ)
    → t ≤ u
    → let (gone, after) = expire_metadata (pos t) authority p in
      (list_active_metadata (pos u) asker after ≡ list_active_metadata (pos u) asker p)
      × ((es : List (MetadataEntry ℕ)) × (gone ≡ ok es)
          × (length es + length after.entries ≡ length p.entries))
unfolding expire_metadata
expire_unseen p authority asker t u h = elim (Bool-cases (allows p.policy authority)) [
  | inl trusted ↦ rw trusted (
    listing_kept p asker t u h,
    (select (is_expired t) p.entries, refl, length-select (is_expired t) p.entries),
  )
  | inr foreign ↦ rw foreign (refl, ([], refl, omega arith))
]

make_entry-expiry :
    (lower : Text → Text) (d : MetadataEntry (Option ℕ)) (e : MetadataEntry ℕ)
    → make_entry lower d ≡ ok e
    → e.created_tick < e.expires_at_tick
unfolding make_entry
make_entry-expiry lower d e made = ground arith

draft-expiry :
    (lower : Text → Text) (q : PlacementRequest) (index : ℕ) (e : MetadataEntry ℕ)
    (created : Result ℕ) (ttl expires : Result (Option ℕ))
    → (created >>= λ c. ttl >>= λ l. expires >>= λ x. make_entry lower (draft q c l x index)) ≡ ok e
    → e.created_tick < e.expires_at_tick
draft-expiry lower q index e (raised x) ttl expires made = absurd (cc)
draft-expiry lower q index e (ok c) (raised x) expires made = absurd (cc)
draft-expiry lower q index e (ok c) (ok l) (raised x) made = absurd (cc)
draft-expiry lower q index e (ok c) (ok l) (ok x) made =
    make_entry-expiry lower (draft q c l x index) e made

entry_of-expiry :
    (lower : Text → Text) (q : PlacementRequest) (index : ℕ) (e : MetadataEntry ℕ)
    → entry_of lower q index ≡ ok e
    → e.created_tick < e.expires_at_tick
unfolding entry_of
entry_of-expiry lower q index e made =
    draft-expiry lower q index e
      (non_negative q.created_tick "created_tick must be a non-negative integer")
      (given q.ttl_ticks "ttl_ticks must be a non-negative integer")
      (given q.expires_at_tick "expires_at_tick must be a non-negative integer") made

-- A request that is accepted comes with the authority and makes one more entry, the last one, which
-- expires later than the tick of its creation; the entries before it stay as they were.
place_accepted :
    (lower : Text → Text) (q : PlacementRequest) (authority : Option Text) (p : Placement)
    (e : MetadataEntry ℕ)
    → (place_temporary_metadata lower q authority p).0.entry ≡ some e
    → (allows p.policy authority ≡ true)
      × ((place_temporary_metadata lower q authority p).1.entries ≡ p.entries ++ e ∷ [])
      × (e.created_tick < e.expires_at_tick)
unfolding place_temporary_metadata
place_accepted lower q authority p e made =
    elim (Result-cases (entry_of lower q (length p.entries))) [
      | inl (x, failed) ↦ absurd (ground arith)
      | inr (d, accepted) ↦ ground (arith, entry_of-expiry lower q (length p.entries) d accepted)
    ]
