-- ===== src/Consumer/Verify/Reported.antt =====
-- Where the contents of a report come from (`verify_manifest` of port/consumer/verify.py).
use symaira_corekit.Base.{◌≡◌, inl, inr, some, List, arith, str, Bool-cases, Option-cases, is_empty}
use symaira_corekit.Consumer.Findings.{Report, returns}
use symaira_corekit.Consumer.Findings.Laws.{Check-cases}
use symaira_corekit.Consumer.Go.{listed}
use symaira_corekit.Consumer.Records.{Options}
use symaira_corekit.Consumer.Verify.{
  Arguments, Verification, corekit_entry, findings_of, load_manifest, options, report_of, roots,
  verification, verify_document, verify_manifest, verify_records,
}
use symaira_corekit.Consumer.World.{Location, World}
use symaira_corekit.Json.{Fields, Value, as_list, get_in}

-- A report comes from the list of a manifest's records and from findings.
abbrev pub Reported : Value → Verification → Type 0
Reported document report =
    (records : List Value) × (findings : Report) × (as_list (get_in document (str "consumers"))
      ≡ some records)
    × (report ≡ report_of records findings)

records-Reported :
    (w : World) (o : Options) (corekit registry : Fields) (document : Value) (records : List Value)
    (report : Verification)
    → as_list (get_in document (str "consumers")) ≡ some records
    → verify_records w o corekit registry records ≡ returns report
    → Reported document report
unfolding verify_records
records-Reported w o corekit registry document records report listed h =
    elim (Check-cases (roots w o)) [
      | inr (x, e) ↦ absurd (ground (arith, h, e))
      | inl ((workspace_root, corekit_root), e) ↦
          elim (Check-cases
            (findings_of w o workspace_root corekit_root corekit registry records)) [
              | inr (x, f) ↦ absurd (ground (arith, h, e, f))
              | inl (findings, f) ↦ (records, findings, listed, ground (arith, h, e, f))
            ]
    ]

document-Reported :
    (w : World) (o : Options) (document : Value) (report : Verification)
    → verify_document w o document ≡ returns report
    → Reported document report
unfolding verify_document
document-Reported w o document report h = elim (Check-cases (corekit_entry document)) [
  | inr (x, e) ↦ absurd (ground (arith, h, e))
  | inl ((corekit, registry), e) ↦
      elim (Option-cases (as_list (get_in document (str "consumers")))) [
        | inl f ↦ absurd (ground (arith, h, e, f))
        | inr (records, f) ↦ elim (Bool-cases (is_empty records)) [
          | inl b ↦ absurd (ground (arith, h, e, f, b))
          | inr b ↦
              records-Reported w o corekit registry document records report f
                (ground (arith, h, e, f, b))
        ]
      ]
]

pub verification-Reported :
    (w : World) (root : Location) (args : Arguments) (report : Verification)
    → verification w root args ≡ returns report
    → (document : Value) × (load_manifest w (w.resolve args.manifest) ≡ returns document)
      × Reported document report
unfolding verification verify_manifest
verification-Reported w root args report h = elim (Check-cases (options w root args)) [
  | inr (x, e) ↦ absurd (ground (arith, h, e))
  | inl (o, e) ↦ elim (Check-cases (load_manifest w (w.resolve args.manifest))) [
    | inr (x, f) ↦ absurd (ground (arith, h, e, f))
    | inl (document, f) ↦
        (document, f, document-Reported w o document report (ground (arith, h, e, f)))
  ]
]
