-- ===== src/Judgment/EvidenceGate/Floor.antt =====
-- judgment/application/evidence_gate.py: the verdicts that pass the gate.
use unknown_file_threat_agen.Contracts.{
  Activity, InvestigationState, CandidateVerdict, confirmed_malicious, suspicious, VerdictLevel,
}
use unknown_file_threat_agen.Judgment.EvidenceGate.{
  required_capabilities, activity_capabilities, resolve_cited_activity, capabilities_at,
  cited_capabilities, missing_capabilities, is_confirmed, floor_limitation, gate_verdict,
}
use unknown_file_threat_agen.Judgment.EvidenceGate.Reachable.{
  IsIn, returned_activities, resolve_cited_activity-IsIn,
}
use unknown_file_threat_agen.Prelude.{
  ◌+◌, String, ◌≡◌, refl, ap, ◌⊎◌, inl, inr, true, false, not, ◌&&◌, Option, none, some, List, [],
  ◌∷◌, ◌++◌, arith, if◌then◌else◌, Bool-cases, length, length-append, is_nil, concat_map, mem, diff,
  sorted_set, str_refl, mem-append, all-mem-of_diff, mem-uncovered,
}

mem-head : (z : String) (ws zs : List String) → ws ≡ z ∷ zs → mem z ws ≡ true
unfolding mem
mem-head z ws zs e = ground (arith, str_refl z)

-- a citation of the verdict that contributes the capability, and the activity that it stands for
abbrev pub Covers : InvestigationState → CandidateVerdict → String → Type 0
Covers state verdict c =
    (ref : String) × (a : Activity) × (mem ref verdict.supporting_refs ≡ true)
    × (resolve_cited_activity state ref ≡ some a)
    × IsIn a (returned_activities state)
    × (mem c (activity_capabilities a) ≡ true)

capabilities_at-mem :
    (c : String) (o : Option Activity)
    → mem c (capabilities_at o) ≡ true
    → (a : Activity) × (o ≡ some a) × (mem c (activity_capabilities a) ≡ true)
unfolding capabilities_at mem
capabilities_at-mem c none h = cc
capabilities_at-mem c (some a) h = (a, refl, h)

-- a member of a concatenation comes from one of its parts
mem-concat_map :
    (c : String) (f : String → List String) (refs : List String)
    → mem c (concat_map f refs) ≡ true
    → (ref : String) × (mem ref refs ≡ true) × (mem c (f ref) ≡ true)
unfolding mem
mem-concat_map c f [] h = cc
mem-concat_map c f (r ∷ rs) h = elim (Bool-cases (mem c (f r))) [
  | inl here ↦ (r, ground (arith, str_refl r), here)
  | inr there ↦
      let later =
        mem-concat_map c f rs (ground (arith, h, there, mem-append c (f r) (concat_map f rs))) in
      (later.0, ground (arith, later.1), later.2)
]

cited_capabilities-Covers :
    (state : InvestigationState) (verdict : CandidateVerdict) (c : String)
    → mem c (cited_capabilities state verdict) ≡ true
    → Covers state verdict c
unfolding cited_capabilities
cited_capabilities-Covers state verdict c h =
    let cited =
      mem-concat_map c (λ ref. capabilities_at (resolve_cited_activity state ref))
        verdict.supporting_refs h in
    let found = capabilities_at-mem c (resolve_cited_activity state cited.0) cited.2 in
    (
      cited.0,
      found.0,
      cited.1,
      found.1,
      resolve_cited_activity-IsIn state cited.0 found.0 found.1,
      found.2,
    )

abbrev lower : List String → CandidateVerdict → CandidateVerdict
lower missing verdict = record verdict {
  level = suspicious;
  limitations = verdict.limitations ++ floor_limitation missing ∷ [];
}

is_confirmed-level : (l : VerdictLevel) → is_confirmed l ≡ true → l ≡ confirmed_malicious
unfolding is_confirmed
is_confirmed-level confirmed_malicious h = refl
is_confirmed-level _ h = cc

-- the branches of the gate
gate_verdict-cases :
    (state : InvestigationState) (verdict : CandidateVerdict)
    → (gate_verdict state verdict ≡ (
        if is_confirmed verdict.level && not (is_nil (missing_capabilities state verdict))
        then lower (missing_capabilities state verdict) verdict
        else verdict))
unfolding gate_verdict
gate_verdict-cases state verdict = ground arith

confirmed_after_lowering :
    (state : InvestigationState) (verdict : CandidateVerdict)
    → (gate_verdict state verdict).level ≡ confirmed_malicious
    → is_nil (missing_capabilities state verdict) ≡ false
    → true ≡ false
unfolding gate_verdict is_confirmed
confirmed_after_lowering state verdict h unmet = ground arith

first_missing :
    (xs ys : List String)
    → is_nil (sorted_set (diff xs ys)) ≡ false
    → (c : String) × (mem c xs ≡ true) × (mem c ys ≡ false)
first_missing xs ys h = first (sorted_set (diff xs ys)) refl h
  where
    first :
        (zs : List String)
        → sorted_set (diff xs ys) ≡ zs
        → is_nil zs ≡ false
        → (c : String) × (mem c xs ≡ true) × (mem c ys ≡ false)
    first [] e n = cc
    first (z ∷ zs) e n = (
      z,
      ground (arith, mem-uncovered z xs ys, mem-head z (sorted_set (diff xs ys)) zs e),
      ground (arith, mem-uncovered z xs ys, mem-head z (sorted_set (diff xs ys)) zs e),
    )

-- The gate returns the verdict as it is, or lowers a confirmed one to `suspicious` because a
-- capability that the threat type requires is not among those cited; it then adds one limitation
-- and leaves the citations and the threat type alone.
pub gate_verdict-lowers :
    (state : InvestigationState) (verdict : CandidateVerdict)
    → (gate_verdict state verdict ≡ verdict)
      ⊎ ((verdict.level ≡ confirmed_malicious)
          × ((gate_verdict state verdict).level ≡ suspicious)
          × ((gate_verdict state verdict).threat_type ≡ verdict.threat_type)
          × ((gate_verdict state verdict).supporting_refs ≡ verdict.supporting_refs)
          × ((gate_verdict state verdict).contradicting_refs ≡ verdict.contradicting_refs)
          × (length (gate_verdict state verdict).limitations ≡ length verdict.limitations + 1)
          × ((c : String) × (mem c (required_capabilities verdict.threat_type) ≡ true)
              × (mem c (cited_capabilities state verdict) ≡ false)))
gate_verdict-lowers state verdict =
    let missing = missing_capabilities state verdict in
    elim (Bool-cases (is_confirmed verdict.level && not (is_nil missing))) [
      | inr kept ↦ inl (ground (arith, gate_verdict-cases state verdict, kept))
      | inl lowered ↦
          let e : gate_verdict state verdict ≡ lower missing verdict =
            ground (arith, gate_verdict-cases state verdict, lowered) in
          inr (
            is_confirmed-level verdict.level (ground (arith, lowered)),
            ap (λ (v : CandidateVerdict). v.level) e,
            ap (λ (v : CandidateVerdict). v.threat_type) e,
            ap (λ (v : CandidateVerdict). v.supporting_refs) e,
            ap (λ (v : CandidateVerdict). v.contradicting_refs) e,
            omega (
              arith,
              ap (λ (v : CandidateVerdict). length v.limitations) e,
              length-append verdict.limitations (floor_limitation missing ∷ []),
            ),
            first_missing (required_capabilities verdict.threat_type)
                (cited_capabilities state verdict)
                (unfold missing_capabilities in ground (arith, lowered)),
          )
    ]

-- A second pass through the gate changes nothing.
pub gate_verdict-gate_verdict :
    (state : InvestigationState) (verdict : CandidateVerdict)
    → gate_verdict state (gate_verdict state verdict) ≡ gate_verdict state verdict
unfolding gate_verdict is_confirmed
gate_verdict-gate_verdict state verdict = ground arith

-- A verdict that is `confirmed_malicious` after the gate is the verdict that went in, and every
-- capability that its threat type requires is contributed by an activity that the verdict cites and
-- that a tool result of this run returned.
pub gate_verdict_sound :
    (state : InvestigationState) (verdict : CandidateVerdict)
    → (gate_verdict state verdict).level ≡ confirmed_malicious
    → (gate_verdict state verdict ≡ verdict)
      × ((c : String)
          → mem c (required_capabilities verdict.threat_type) ≡ true
          → Covers state verdict c)
gate_verdict_sound state verdict h =
    elim (Bool-cases (is_nil (missing_capabilities state verdict))) [
      | inl met ↦ (
        ground (arith, gate_verdict-cases state verdict, met),
        λ c m. cited_capabilities-Covers state verdict c (
            all-mem-of_diff c (required_capabilities verdict.threat_type)
              (cited_capabilities state verdict) (unfold missing_capabilities in met) m),
      )
      | inr unmet ↦ cc (confirmed_after_lowering state verdict h unmet)
    ]
