-- ===== src/Screening/Filter/Admitted.antt =====
-- Which files a filter policy admits.
use sync_hub_for_agents.Base.{
  ℕ, zero, suc, ◌<◌, pos, negsuc, ap, sym, ◌∙◌, ◌≡◌, refl, Bool, true, false, List, [], ◌∷◌, ℤ, All,
  arith,
}
use sync_hub_for_agents.Base.{◌==◌, if◌then◌else◌}
use sync_hub_for_agents.Base.Text.{Text, text_eq, codes}
use sync_hub_for_agents.Base.Result.{Result, ok, err, ◌>>◌, reject}
use sync_hub_for_agents.Base.Strings.{to_slash}
use sync_hub_for_agents.Resource.Model.{strategy_source_tree}
use sync_hub_for_agents.Resource.Namespace.{PathError, validate_repo_relative}
use sync_hub_for_agents.Screening.{Platform}
use sync_hub_for_agents.Screening.Secret.{path_ext}
use sync_hub_for_agents.Screening.Filter.{
  FilterPolicy, is_negative, too_large, has_failed, unless_match, check_globs, check_extensions,
  check,
}

module _ (p : Platform) where
  -- No glob of a list is malformed or matches the path.
  abbrev pub Unmatched : Text → List Text → Type 0
  Unmatched path = All (λ (g : Text). p.glob (to_slash g) path ≡ ok false)

  abbrev pub OtherExtension : Text → List Text → Type 0
  OtherExtension extension = All (λ (x : Text). p.equal_fold extension x ≡ false)

  -- A size is below the limit of a policy, if that is positive.
  abbrev pub IsBelow : ℕ → ℤ → Type 0
  IsBelow bytes (pos (suc limit)) = bytes < suc limit
  IsBelow bytes _ = Unit

  -- What a policy asks of a file
  pub record Admitted (policy : FilterPolicy) (path : Text) (size : ℤ) (strategy : Text)
      : Type 0 where
    pub has_path : validate_repo_relative (to_slash path) ≡ ok tt
    pub bytes : ℕ
    pub has_size : size ≡ pos bytes
    pub is_small : IsBelow bytes policy.max_file_size
    pub is_unmatched : Unmatched (to_slash path) policy.generated_globs
    pub is_no_binary :
        (strategy == strategy_source_tree) ≡ true
        → OtherExtension (path_ext (to_slash path)) policy.executable_extensions

  one_unmatched : (x : Result Text Bool) → unless_match x ≡ ok tt → x ≡ ok false
  one_unmatched (ok true) h = cc
  one_unmatched (ok false) h = refl
  one_unmatched (err e) h = cc

  both_succeed : (a b : Result Text (Unit {0})) → (a >> b) ≡ ok tt → (a ≡ ok tt) × (b ≡ ok tt)
  both_succeed (err e) b h = cc
  both_succeed (ok _) b h = (refl, h)

  reject_passes : (b : Bool) (e : Text) → reject b e ≡ ok tt → b ≡ false
  reject_passes true e h = cc
  reject_passes false e h = refl

  globs-Unmatched :
      (gs : List Text) (path : Text) → check_globs p gs path ≡ ok tt → Unmatched path gs
  unfolding check_globs
  globs-Unmatched [] path h = tt
  globs-Unmatched (g ∷ gs) path h =
      let (one, others) =
        both_succeed (unless_match (p.glob (to_slash g) path)) (check_globs p gs path) h in
      (one_unmatched (p.glob (to_slash g) path) one, globs-Unmatched gs path others)

  Unmatched-globs :
      (gs : List Text) (path : Text) → Unmatched path gs → check_globs p gs path ≡ ok tt
  unfolding check_globs
  Unmatched-globs [] path a = refl
  Unmatched-globs (g ∷ gs) path a = rw (a.0) (Unmatched-globs gs path a.1)

  extensions-Other :
      (xs : List Text) (extension : Text)
      → check_extensions p xs extension ≡ ok tt
      → OtherExtension extension xs
  unfolding check_extensions
  extensions-Other [] extension h = tt
  extensions-Other (x ∷ xs) extension h =
      let (one, others) =
        both_succeed (reject (p.equal_fold extension x) (codes "platform-binary"))
          (check_extensions p xs extension) h in
      (
        reject_passes (p.equal_fold extension x) (codes "platform-binary") one,
        extensions-Other xs extension others,
      )

  Other-extensions :
      (xs : List Text) (extension : Text)
      → OtherExtension extension xs
      → check_extensions p xs extension ≡ ok tt
  unfolding check_extensions
  Other-extensions [] extension a = refl
  Other-extensions (x ∷ xs) extension a = rw (a.0) (Other-extensions xs extension a.1)

  has_passed : (x : Result PathError (Unit {0})) → has_failed x ≡ false → x ≡ ok tt
  has_passed (ok _) h = refl
  has_passed (err e) h = ground arith

  size_of : (size : ℤ) → is_negative size ≡ false → (bytes : ℕ) × (size ≡ pos bytes)
  size_of (pos n) h = (n, refl)
  size_of (negsuc n) h = ground arith

  too_large-IsBelow :
      (limit : ℤ) (bytes : ℕ) → too_large limit (pos bytes) ≡ false → IsBelow bytes limit
  unfolding too_large
  too_large-IsBelow (pos zero) bytes h = tt
  too_large-IsBelow (pos (suc limit)) bytes h = grind arith
  too_large-IsBelow (negsuc n) bytes h = tt

  IsBelow-too_large :
      (limit : ℤ) (bytes : ℕ) → IsBelow bytes limit → too_large limit (pos bytes) ≡ false
  unfolding too_large
  IsBelow-too_large (pos zero) bytes h = refl
  IsBelow-too_large (pos (suc limit)) bytes h = grind arith
  IsBelow-too_large (negsuc n) bytes h = refl

  when_tree :
      (b : Bool) (m : Result Text (Unit {0}))
      → (if b then m else ok tt) ≡ ok tt
      → b ≡ true
      → m ≡ ok tt
  when_tree true m h e = h
  when_tree false m h e = ground arith

  unless_tree :
      (b : Bool) (m : Result Text (Unit {0}))
      → (b ≡ true → m ≡ ok tt)
      → (if b then m else ok tt) ≡ ok tt
  unless_tree true m f = f refl
  unless_tree false m f = refl

  -- Check lets a file pass exactly if its path is one within the repository, its size is not negative
  -- and less than the limit, if that is positive, every generated glob is well formed and does not match it,
  -- and, in a source tree, its extension is none of those of executables.
  pub check-Admitted :
      (policy : FilterPolicy) (path : Text) (size : ℤ) (strategy : Text)
      → (check p policy path size strategy ≡ ok tt → Admitted policy path size strategy)
        × (Admitted policy path size strategy → check p policy path size strategy ≡ ok tt)
  unfolding check
  check-Admitted policy path size strategy = (admitted, passes)
    where
      last : Result Text (Unit {0})
      last =
          if strategy == strategy_source_tree
          then check_extensions p policy.executable_extensions (path_ext (to_slash path))
          else ok tt

      globbed : Result Text (Unit {0})
      globbed = check_globs p policy.generated_globs (to_slash path) >> last

      small : Result Text (Unit {0})
      small = reject (too_large policy.max_file_size size) (codes "file-too-large") >> globbed

      sized : Result Text (Unit {0})
      sized = reject (is_negative size) (codes "invalid-size") >> small

      admitted : check p policy path size strategy ≡ ok tt → Admitted policy path size strategy
      admitted h =
          let (on_path, h1) =
            both_succeed
              (reject (has_failed (validate_repo_relative (to_slash path))) (codes "invalid-path"))
              sized h in
          let (on_sign, h2) =
            both_succeed (reject (is_negative size) (codes "invalid-size")) small h1 in
          let (on_size, h3) =
            both_succeed (reject (too_large policy.max_file_size size) (codes "file-too-large"))
              globbed h2 in
          let (on_globs, h4) =
            both_succeed (check_globs p policy.generated_globs (to_slash path)) last h3 in
          let (bytes, sign) =
            size_of size (reject_passes (is_negative size) (codes "invalid-size") on_sign) in
          record {
            bytes = bytes;
            has_path = has_passed (validate_repo_relative (to_slash path)) (
                reject_passes (has_failed (validate_repo_relative (to_slash path)))
                  (codes "invalid-path") on_path);
            has_size = sign;
            is_small = too_large-IsBelow policy.max_file_size bytes (
                ap (λ z. too_large policy.max_file_size z) (sym sign)
                ∙ reject_passes (too_large policy.max_file_size size) (codes "file-too-large")
                    on_size);
            is_unmatched = globs-Unmatched policy.generated_globs (to_slash path) on_globs;
            is_no_binary = λ e.
                extensions-Other policy.executable_extensions (path_ext (to_slash path)) (
                  when_tree (strategy == strategy_source_tree)
                    (check_extensions p policy.executable_extensions (path_ext (to_slash path))) h4
                    e);
          }

      passes : Admitted policy path size strategy → check p policy path size strategy ≡ ok tt
      passes a =
          rw
            (
              check,
              a.has_path,
              a.has_size,
              IsBelow-too_large policy.max_file_size a.bytes a.is_small,
              Unmatched-globs policy.generated_globs (to_slash path) a.is_unmatched,
            )
            (unless_tree (strategy == strategy_source_tree)
              (check_extensions p policy.executable_extensions (path_ext (to_slash path)))
              (λ e.
                Other-extensions policy.executable_extensions (path_ext (to_slash path))
                  (a.is_no_binary e)))
