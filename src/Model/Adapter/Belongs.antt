-- ===== src/Model/Adapter/Belongs.antt =====
-- pkg/model: what a model that is built from the parser's files is like.
use qtest.Prelude.{All, Bool-cases, inl, ◌≡◌, refl, inr, String, List, [], ◌∷◌, map}
use qtest.Prelude.Int.{ℤ}
use qtest.Workspace.Generate.{got}
use qtest.Model.Types.{SystemModel}
use qtest.Model.Builder.{Texts, new_model, add_parsed_file}
use qtest.Model.Builder.Modules.{IsModular, add_parsed_file-IsModular}
use qtest.Model.Builder.Analysis.{
  Risks, build, compute_risk_scores, generate_test_targets, Supplement, run_supplements, all_files,
}
use qtest.Model.Builder.Targets.Described.{IsTargeted}
use qtest.Model.Builder.Targets.{generate_test_targets-IsTargeted}
use qtest.Model.Adapter.{
  ParsedFile, convert_parsed_file, function_of, class_of, add_file, add_files,
  build_system_model_from_parser,
}

module _ {ℓ} {S : Type ℓ} (texts : Texts) where
  add_file-IsModular :
      (pf : ParsedFile) (m : SystemModel S) → IsModular m → IsModular (add_file texts pf m)
  unfolding add_file
  add_file-IsModular pf m =
      add_parsed_file-IsModular texts pf.path pf.language (map function_of pf.functions)
        (map class_of pf.classes) m

  add_files-IsModular :
      (pfs : List ParsedFile) (m : SystemModel S) → IsModular m → IsModular (add_files texts pfs m)
  unfolding add_files
  add_files-IsModular [] m v = v
  add_files-IsModular (pf ∷ pfs) m v =
      add_files-IsModular pfs (add_file texts (convert_parsed_file pf) m)
        (add_file-IsModular (convert_parsed_file pf) m v)

  add_files-untargeted :
      (pfs : List ParsedFile) (m : SystemModel S)
      → m.test_targets ≡ []
      → (add_files texts pfs m).test_targets ≡ []
  unfolding add_files add_file add_parsed_file
  add_files-untargeted [] m e = e
  add_files-untargeted (pf ∷ pfs) m e =
      add_files-untargeted pfs (add_file texts (convert_parsed_file pf) m) e

  module _ (risks : Risks S) where
    analyzed-IsModular :
        (m : SystemModel S)
        → IsModular m
        → IsModular (generate_test_targets risks (compute_risk_scores risks m))
    unfolding generate_test_targets compute_risk_scores
    analyzed-IsModular m v = record { unique = v.unique; placed = v.placed }

    analyzed-IsTargeted :
        (m : SystemModel S)
        → m.test_targets ≡ []
        → IsTargeted (generate_test_targets risks (compute_risk_scores risks m))
    unfolding compute_risk_scores
    analyzed-IsTargeted m e = generate_test_targets-IsTargeted risks (compute_risk_scores risks m) e

    -- A supplement that succeeds on such a model, and leaves it so.
    abbrev pub IsFaithful : Supplement S → Type ℓ
    IsFaithful supp =
        (m : SystemModel S)
        → IsModular m
        → m.test_targets ≡ []
        → (m' : SystemModel S) × (supp.analyze m ≡ inr m') × IsModular m' × (m'.test_targets ≡ [])

    run_supplements-kept :
        (supps : List (Supplement S)) (files : List String) (m : SystemModel S)
        → All IsFaithful supps
        → IsModular m
        → m.test_targets ≡ []
        → (m' : SystemModel S) × (run_supplements risks supps files m ≡ inr m')
          × IsModular m'
          × (m'.test_targets ≡ [])
    unfolding run_supplements
    run_supplements-kept [] files m f v e = (m, refl, v, e)
    run_supplements-kept (supp ∷ supps) files m f v e = elim (Bool-cases (supp.detect files)) [
      | inr passed_over ↦
          let (m', r, v', e') = run_supplements-kept supps files m f.1 v e in
          (m', rw passed_over r, v', e')
      | inl applies ↦
          let (m', r, v', e') = f.0 m v e in
          let (m'', r', v'', e'') = run_supplements-kept supps files m' f.1 v' e' in
          (m'', rw (applies, r) r', v'', e'')
    ]

    -- `Build` of the files that a parser gives succeeds, with supplements that succeed and that keep the
    -- two properties of a model that are named first: no two modules have one id, and each function is
    -- in a module that lists the function's file; they set no test target. In the result each endpoint
    -- and each exported function has a test target, no target is for anything else, there are no more
    -- targets than endpoints and exported functions, and the priorities of the targets are 1, 2, 3 and
    -- so on in order.
    pub build-built :
        (id repo branch commit_sha : String) (now : ℤ) (files : List ParsedFile)
        (supps : List (Supplement S))
        → All IsFaithful supps
        → (m : SystemModel S) × (build risks supps
              (add_files texts files (new_model id now repo branch commit_sha))
            ≡ inr m)
          × IsModular m
          × IsTargeted m
    unfolding build new_model
    build-built id repo branch commit_sha now files supps faithful =
        let start : SystemModel S = new_model id now repo branch commit_sha in
        let m = add_files texts files start in
        let v = add_files-IsModular files start (record { unique = tt; placed = tt }) in
        let (m', r, v', e') =
          run_supplements-kept supps (all_files m.modules) m faithful v
            (add_files-untargeted files start refl) in
        (
          generate_test_targets risks (compute_risk_scores risks m'),
          rw r refl,
          analyzed-IsModular m' v',
          analyzed-IsTargeted m' e',
        )

    -- The model that the modeling worker builds from its files, without supplements.
    build_system_model_from_parser-built :
        (id repo branch commit_sha : String) (now : ℤ) (files : List ParsedFile)
        → (m : SystemModel S) × (build_system_model_from_parser texts risks id now
              (got files)
              repo
              branch
              commit_sha
            ≡ inr m)
          × IsModular m
          × IsTargeted m
    unfolding build_system_model_from_parser
    build_system_model_from_parser-built id repo branch commit_sha now files =
        build-built id repo branch commit_sha now files [] tt
