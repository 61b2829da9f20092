-- ===== src/Judgment/Assembly/Stripped.antt =====
-- judgment/application/report_assembly.py: the strip of references that an issue names.
use unknown_file_threat_agen.Shared.Text.{before_char, after_char, contains}
use unknown_file_threat_agen.Contracts.{InvestigationState, ReportStatement}
use unknown_file_threat_agen.Judgment.Grounding.{ReportDraft, ReportValidationIssue}
use unknown_file_threat_agen.Judgment.Grounding.Refs.{Within}
use unknown_file_threat_agen.Judgment.Assembly.Backstops.{
  is_citation, strip_statement, strip_section, set_section, strip_at, strip_issues,
}
use unknown_file_threat_agen.Judgment.Assembly.Mechanical.{IsCited, IsMechanical}
use unknown_file_threat_agen.Prelude.{
  String, ◌≡◌, refl, ◌∙◌, inl, inr, Bool, true, false, ◌&&◌, List, [], ◌∷◌, ◌++◌, arith, ◌==◌,
  eq_iff, if◌then◌else◌, if-All, Bool-cases, any, All, mem, diff, mem-append, mem-diff,
}

pub diff-Within : (xs bad ys : List String) → Within xs ys → Within (diff xs bad) ys
diff-Within xs bad ys w a m = w a (ground (arith, m, mem-diff a xs bad))

module _ (state : InvestigationState) where
  strip_section-All :
      (id : String) (bad : List String) (xs : List ReportStatement)
      → All (IsCited state) xs
      → All (IsCited state) (strip_section id bad xs)
  unfolding strip_section strip_statement
  strip_section-All id bad [] h = tt
  strip_section-All id bad (s ∷ xs) h = (
    if-All (IsCited state) (s.statement_id == id) (diff-Within s.supporting_refs bad _ h.0) h.0,
    strip_section-All id bad xs h.1,
  )

  module _ (draft update : ReportDraft) (d : IsMechanical state draft)
      (u : IsMechanical state update) where
    set_section-IsMechanical :
        (section id : String) (bad : List String)
        → IsMechanical state (set_section section id bad draft update)
    unfolding set_section
    set_section-IsMechanical section id bad =
        let P = IsMechanical state in
        if-All P (section == "current_situation")
          (let new = strip_section-All id bad draft.current_situation d.current_situation_lem in
            search new)
          (if-All P (section == "affected_scope")
            (let new = strip_section-All id bad draft.affected_scope d.affected_scope_lem in
              search new)
            (if-All P (section == "key_evidence")
              (let new = strip_section-All id bad draft.key_evidence d.key_evidence_lem in
                search new)
              (if-All P (section == "counter_evidence")
                (let new = strip_section-All id bad draft.counter_evidence d.counter_evidence_lem in
                  search new)
                u)))

    strip_at-IsMechanical :
        (location : String) (bad : List String)
        → IsMechanical state (strip_at location bad draft update)
    unfolding strip_at
    strip_at-IsMechanical location bad =
        let P = IsMechanical state in
        if-All P (location == "verdict.supporting_refs")
          (let new = diff-Within draft.verdict.supporting_refs bad _ d.supporting in search new)
          (if-All P (location == "verdict.contradicting_refs")
            (let new = diff-Within draft.verdict.contradicting_refs bad _ d.contradicting in
              search new)
            (if-All P (location == "supporting_evidence_refs")
              (let new = diff-Within draft.supporting_evidence_refs bad _ d.evidence in search new)
              (if-All P (location == "confirmed_relation_refs")
                (let new =
                    λ (r : String) (m : mem r (diff update.confirmed_relation_refs bad) ≡ true).
                      u.no_candidate r
                        (ground (arith, m, mem-diff r update.confirmed_relation_refs bad)) in
                  search new)
                (if-All P (contains ".supporting_refs" location)
                  (set_section-IsMechanical (before_char b'[' location)
                    (before_char b']' (after_char b'[' location)) bad)
                  u))))

  pub strip_issues-IsMechanical :
      (forbidden : List String) (issues : List ReportValidationIssue) (draft update : ReportDraft)
      → IsMechanical state draft
      → IsMechanical state update
      → IsMechanical state (strip_issues forbidden issues draft update)
  unfolding strip_issues
  strip_issues-IsMechanical forbidden [] draft update d u = u
  strip_issues-IsMechanical forbidden (issue ∷ issues) draft update d u =
      strip_issues-IsMechanical forbidden issues draft _ d (
        if-All (IsMechanical state) (is_citation issue.code)
          (strip_at-IsMechanical draft update d u issue.location (issue.invalid_refs ++ forbidden))
          u)

-- what the strip does to the hosts and to the confirmed relations
abbrev pub Narrows : ReportDraft → ReportDraft → Type 0
Narrows before after =
    (after.asserted_host_refs ≡ before.asserted_host_refs)
    × Within after.confirmed_relation_refs before.confirmed_relation_refs

set_section-Narrows :
    (section id : String) (bad : List String) (draft update : ReportDraft)
    → Narrows update (set_section section id bad draft update)
unfolding set_section
set_section-Narrows section id bad draft update =
    let P = Narrows update in
    let same = λ (a : String) (m : mem a update.confirmed_relation_refs ≡ true). m in
    if-All P (section == "current_situation") (refl, same)
      (if-All P (section == "affected_scope") (refl, same)
        (if-All P (section == "key_evidence") (refl, same)
          (if-All P (section == "counter_evidence") (refl, same) (refl, same))))

strip_at-Narrows :
    (location : String) (bad : List String) (draft update : ReportDraft)
    → Narrows update (strip_at location bad draft update)
unfolding strip_at
strip_at-Narrows location bad draft update =
    let P = Narrows update in
    if-All P (location == "verdict.supporting_refs") (refl, λ a m. m)
      (if-All P (location == "verdict.contradicting_refs") (refl, λ a m. m)
        (if-All P (location == "supporting_evidence_refs") (refl, λ a m. m)
          (if-All P (location == "confirmed_relation_refs")
            (refl, λ a m. ground (arith, m, mem-diff a update.confirmed_relation_refs bad))
            (if-All P (contains ".supporting_refs" location)
              (set_section-Narrows (before_char b'[' location)
                (before_char b']' (after_char b'[' location)) bad draft update)
              (refl, λ a m. m)))))

pub strip_issues-Narrows :
    (forbidden : List String) (issues : List ReportValidationIssue) (draft update : ReportDraft)
    → Narrows update (strip_issues forbidden issues draft update)
unfolding strip_issues
strip_issues-Narrows forbidden [] draft update = (refl, λ a m. m)
strip_issues-Narrows forbidden (issue ∷ issues) draft update =
    let bad = issue.invalid_refs ++ forbidden in
    let next =
      if is_citation issue.code then strip_at issue.location bad draft update else update in
    let here =
      if-All (Narrows update) (is_citation issue.code)
        (strip_at-Narrows issue.location bad draft update) (refl, λ a m. m) in
    let rest = strip_issues-Narrows forbidden issues draft next in
    (rest.0 ∙ here.0, λ a m. here.1 a (rest.1 a m))

-- an issue that names a confirmed relation
abbrev pub blames : String → ReportValidationIssue → Bool
blames r issue =
    is_citation issue.code
    && issue.location == "confirmed_relation_refs"
    && mem r issue.invalid_refs

strip_at-confirmed :
    (bad : List String) (draft update : ReportDraft)
    → (strip_at "confirmed_relation_refs" bad draft update).confirmed_relation_refs
      ≡ diff update.confirmed_relation_refs bad
unfolding strip_at
strip_at-confirmed bad draft update = refl

strip_at-blames :
    (forbidden : List String) (issue : ReportValidationIssue) (draft update : ReportDraft)
    (r : String)
    → blames r issue ≡ true
    → mem r
        (if is_citation issue.code
          then strip_at issue.location (issue.invalid_refs ++ forbidden) draft update
          else update).confirmed_relation_refs
      ≡ false
strip_at-blames forbidden issue draft update r h =
    let bad = issue.invalid_refs ++ forbidden in
    let cited : is_citation issue.code ≡ true = ground (arith, h) in
    let place : (issue.location == "confirmed_relation_refs") ≡ true = ground (arith, h) in
    let named : mem r issue.invalid_refs ≡ true = ground (arith, h) in
    rw
      (
        cited,
        (eq_iff issue.location "confirmed_relation_refs").0 place,
        strip_at-confirmed bad draft update,
      )
      (ground (
        arith,
        mem-diff r update.confirmed_relation_refs bad,
        mem-append r issue.invalid_refs forbidden,
        named,
      ))

-- a confirmed relation that an issue names is taken out
pub strip_issues-blames :
    (forbidden : List String) (issues : List ReportValidationIssue) (draft update : ReportDraft)
    (r : String)
    → any (blames r) issues ≡ true
    → mem r (strip_issues forbidden issues draft update).confirmed_relation_refs ≡ false
unfolding strip_issues
strip_issues-blames forbidden [] draft update r h = cc
strip_issues-blames forbidden (issue ∷ issues) draft update r h =
    let next =
      if is_citation issue.code
      then strip_at issue.location (issue.invalid_refs ++ forbidden) draft update
      else update in
    elim (Bool-cases (blames r issue)) [
      | inl here ↦
          let gone = strip_at-blames forbidden issue draft update r here in
          let kept = (strip_issues-Narrows forbidden issues draft next).1 r in
          ground (arith, gone, kept)
      | inr later ↦ strip_issues-blames forbidden issues draft next r (ground (arith, h, later))
    ]
