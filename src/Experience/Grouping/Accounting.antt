-- ===== src/Experience/Grouping/Accounting.antt =====
-- Where the observed evidence goes: every occurrence supports one candidate, or is ambiguous, or is a
-- duplicate, and no evidence id supports twice. All for any test of eligibility.
use rnde_m.Prelude.{
  ℕ, suc, ◌+◌, ◌≤◌, ◌≡◌, refl, ap, Bool, true, false, List, [], ◌∷◌, ◌++◌, arith, length,
  length-append, select, if◌then◌else◌, Text, eq_text, eq_text_iff,
}
use rnde_m.Patterns.Model.{contains}
use rnde_m.Experience.Evidence.{ExperienceEvidence}
use rnde_m.Experience.Grouping.{
  Candidate, Grouper, GroupingStatus, created, added, duplicate, ambiguous, support,
  fresh_candidate, place, observe_with, new_grouper,
}

-- How often an id stands in a list.
unfoldable pub count_id : Text → List Text → ℕ
count_id id [] = 0
count_id id (x ∷ xs) = let rest = count_id id xs in if eq_text x id then suc rest else rest

count_id-append :
    (id : Text) (xs ys : List Text) → count_id id (xs ++ ys) ≡ count_id id xs + count_id id ys
unfolding count_id
count_id-append id [] ys = omega arith
count_id-append id (x ∷ xs) ys = ground (arith, count_id-append id xs ys)

-- 1 for a result that leaves its evidence without a candidate.
abbrev pub unplaced : GroupingStatus → ℕ
unplaced created = 0
unplaced added = 0
unplaced duplicate = 1
unplaced ambiguous = 1

abbrev pub one_if : Bool → ℕ
one_if true = 1
one_if false = 0

module _ {V : Type 0} where
  -- The number of occurrences that support the candidates, and that of one id among them.
  unfoldable pub support_total : List (Candidate V) → ℕ
  support_total [] = 0
  support_total (c ∷ cs) = length c.supporting_evidence_ids + support_total cs

  unfoldable pub occurrences : Text → List (Candidate V) → ℕ
  occurrences id [] = 0
  occurrences id (c ∷ cs) = count_id id c.supporting_evidence_ids + occurrences id cs

  support_total-append :
      (cs ds : List (Candidate V)) → support_total (cs ++ ds) ≡ support_total cs + support_total ds
  unfolding support_total
  support_total-append [] ds = omega arith
  support_total-append (c ∷ cs) ds = omega (arith, support_total-append cs ds)

  occurrences-append :
      (id : Text) (cs ds : List (Candidate V))
      → occurrences id (cs ++ ds) ≡ occurrences id cs + occurrences id ds
  unfolding occurrences
  occurrences-append id [] ds = omega arith
  occurrences-append id (c ∷ cs) ds = omega (arith, occurrences-append id cs ds)

  support_total-support :
      (p : Candidate V → Bool) (e : ExperienceEvidence V) (cs : List (Candidate V))
      → support_total (support p e cs) ≡ support_total cs + length (select p cs)
  unfolding support_total support
  support_total-support p e [] = omega arith
  support_total-support p e (c ∷ cs) = ground (
    arith,
    support_total-support p e cs,
    length-append {0} c.supporting_evidence_ids (e.evidence_id ∷ []),
  )

  occurrences-support :
      (id : Text) (p : Candidate V → Bool) (e : ExperienceEvidence V) (cs : List (Candidate V))
      → occurrences id (support p e cs)
        ≡ occurrences id cs + (if eq_text e.evidence_id id then length (select p cs) else 0)
  unfolding occurrences support count_id
  occurrences-support id p e [] = ground arith
  occurrences-support id p e (c ∷ cs) = ground (
    arith,
    occurrences-support id p e cs,
    count_id-append id c.supporting_evidence_ids (e.evidence_id ∷ []),
  )

  module _ (test : ExperienceEvidence V → Candidate V → Bool) where
    place_accounts :
        (e : ExperienceEvidence V) (eligible : List (Candidate V)) (g : Grouper V)
        → select (test e) g.candidates ≡ eligible
        → let (r, h) = place (test e) e eligible g in
          support_total h.candidates + unplaced r.status ≡ support_total g.candidates + 1
    unfolding place support_total
    place_accounts e [] g h = omega (
      arith,
      support_total-append g.candidates (fresh_candidate (g.candidate_counter + 1) e ∷ []),
    )
    place_accounts e (c ∷ []) g h =
        omega (arith, support_total-support (test e) e g.candidates, ap length h)
    place_accounts e (c ∷ d ∷ cs) g h = omega arith

    -- One observation adds one occurrence to the candidates' support, unless its evidence is a
    -- duplicate or ambiguous, and then it adds none.
    observe_accounts :
        (e : ExperienceEvidence V) (g : Grouper V)
        → let (r, h) = observe_with test e g in
          support_total h.candidates + unplaced r.status ≡ support_total g.candidates + 1
    unfolding observe_with
    observe_accounts e g = ground (arith, place_accounts e (select (test e) g.candidates) g refl)

    -- The number of results that left their evidence without a candidate, and the last grouper.
    unfoldable pub observe_all : List (ExperienceEvidence V) → Grouper V → ℕ × Grouper V
    observe_all [] g = (0, g)
    observe_all (e ∷ es) g =
        let (r, h) = observe_with test e g in
        let (n, end) = observe_all es h in (unplaced r.status + n, end)

    -- Over any evidence observed one by one, the candidates' support grows by the number of
    -- occurrences less those that were answered as duplicate or ambiguous: none is lost or counted
    -- for two candidates.
    pub observe_all_accounts :
        (es : List (ExperienceEvidence V)) (g : Grouper V)
        → let (n, end) = observe_all es g in
          support_total end.candidates + n ≡ support_total g.candidates + length es
    unfolding observe_all
    observe_all_accounts [] g = omega arith
    observe_all_accounts (e ∷ es) g =
        omega (arith, observe_accounts e g, observe_all_accounts es (observe_with test e g).1)

    place_once :
        (id : Text) (e : ExperienceEvidence V) (eligible : List (Candidate V)) (g : Grouper V)
        → select (test e) g.candidates ≡ eligible
        → contains g.observed_evidence_ids e.evidence_id ≡ false
        → occurrences id g.candidates ≤ one_if (contains g.observed_evidence_ids id)
        → let h = (place (test e) e eligible g).1 in
          occurrences id h.candidates ≤ one_if (contains h.observed_evidence_ids id)
    unfolding place contains occurrences count_id
    place_once id e [] g h new le = ground (
      arith,
      occurrences-append id g.candidates (fresh_candidate (g.candidate_counter + 1) e ∷ []),
      eq_text_iff e.evidence_id id,
      ap (contains g.observed_evidence_ids) {x = e.evidence_id} {y = id},
    )
    place_once id e (c ∷ []) g h new le = ground (
      arith,
      occurrences-support id (test e) e g.candidates,
      ap length h,
      eq_text_iff e.evidence_id id,
    )
    place_once id e (c ∷ d ∷ cs) g h new le = ground arith

    observe_once :
        (id : Text) (e : ExperienceEvidence V) (g : Grouper V)
        → occurrences id g.candidates ≤ one_if (contains g.observed_evidence_ids id)
        → let h = (observe_with test e g).1 in
          occurrences id h.candidates ≤ one_if (contains h.observed_evidence_ids id)
    unfolding observe_with
    observe_once id e g le = ground (arith, place_once id e (select (test e) g.candidates) g refl)

    observe_all_once :
        (id : Text) (es : List (ExperienceEvidence V)) (g : Grouper V)
        → occurrences id g.candidates ≤ one_if (contains g.observed_evidence_ids id)
        → let h = (observe_all es g).1 in
          occurrences id h.candidates ≤ one_if (contains h.observed_evidence_ids id)
    unfolding observe_all
    observe_all_once id [] g le = le
    observe_all_once id (e ∷ es) g le =
        observe_all_once id es (observe_with test e g).1 (observe_once id e g le)

    -- Whatever a new grouper observes, and however often, no evidence id supports more than once,
    -- in one candidate or in two.
    pub supports_once :
        (id : Text) (es : List (ExperienceEvidence V))
        → occurrences id (observe_all es new_grouper).1.candidates ≤ 1
    unfolding occurrences
    supports_once id es = ground (arith, observe_all_once id es new_grouper (omega arith))
