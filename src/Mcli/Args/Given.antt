-- ===== src/Mcli/Args/Given.antt =====
-- The limits of tuners that the command line gives, of ProcessArgs in mcli.c.
use vdr_plugin_mcli.Prelude.{
  ℕ, zero, suc, ◌<◌, ◌≡◌, refl, ap, ◌∙◌, inl, inr, Bool, true, false, Bool-cases, List, [], ◌∷◌,
  arith, if◌then◌else◌, set, get_or, replicate, length, length-set, length-replicate, ◌==◌,
}
use vdr_plugin_mcli.Mcli.Args.{
  Arg, port_arg, iface_arg, tuners_arg, mld_arg, sock_path_arg, tuner_max_arg, debugmask_arg,
  cam_disable_arg, logskipmask_arg, lftp_arg, debug_arg, other_arg, Options, ArgSizes, set_limit,
  process_arg, process_args,
}

-- Whether the command line gives a number of tuners for some type.
abbrev pub gives_tuners : List Arg → Bool
gives_tuners [] = false
gives_tuners (tuners_arg j n ∷ args) = true
gives_tuners (a ∷ args) = gives_tuners args

-- The last number of tuners for the type k, or n where none is given.
abbrev pub given : (k n : ℕ) → List Arg → ℕ
given k n [] = n
given k n (tuners_arg j m ∷ args) = given k (if j == k then m else n) args
given k n (a ∷ args) = given k n args

get_or-set_in :
    (xs : List ℕ) (j k v : ℕ)
    → k < length xs
    → get_or (set xs j v) k 0 ≡ (if j == k then v else get_or xs k 0)
get_or-set_in [] j k v h = absurd (omega arith)
get_or-set_in (x ∷ xs) zero zero v h = refl
get_or-set_in (x ∷ xs) zero (suc k) v h = ground arith
get_or-set_in (x ∷ xs) (suc j) zero v h = ground arith
get_or-set_in (x ∷ xs) (suc j) (suc k) v h = get_or-set_in xs j k v (omega arith) ∙ ground arith

get_or-zeros : (m k : ℕ) → get_or (replicate m zero) k zero ≡ zero
get_or-zeros zero k = refl
get_or-zeros (suc m) zero = refl
get_or-zeros (suc m) (suc k) = get_or-zeros m k

-- An option writes its own limit, and the first one clears the others.
set_limit-get :
    (j n k : ℕ) (o : Options)
    → k < length o.tuner_type_limit
    → get_or (set_limit j n o).tuner_type_limit k 0
      ≡ (if j == k then n else (if o.tuners == 0 then 0 else get_or o.tuner_type_limit k 0))
unfolding set_limit
set_limit-get j n k o h = elim (Bool-cases (o.tuners == 0)) [
  | inl e ↦
      rw
        (
          e,
          get_or-set_in (replicate (length o.tuner_type_limit) 0) j k n (rw length-replicate h),
          get_or-zeros,
        )
        refl
  | inr e ↦ rw (e, get_or-set_in o.tuner_type_limit j k n h) refl
]

set_limit-length :
    (j n : ℕ) (o : Options) → length (set_limit j n o).tuner_type_limit ≡ length o.tuner_type_limit
unfolding set_limit
set_limit-length j n o = elim (Bool-cases (o.tuners == 0)) [
  | inl e ↦ rw (e, length-set, length-replicate) refl
  | inr e ↦ rw (e, length-set) refl
]

-- What one option of this kind does, where m is what the others left behind: 0 if it clears them.
set_limit-given :
    (j n k m : ℕ) (o : Options)
    → k < length o.tuner_type_limit
    → (if o.tuners == 0 then 0 else get_or o.tuner_type_limit k 0) ≡ m
    → get_or (set_limit j n o).tuner_type_limit k 0 ≡ (if j == k then n else m)
set_limit-given j n k m o h e = set_limit-get j n k o h ∙ ap (λ x. if j == k then n else x) e

-- Once a number was given, or where the limits need no clearing, the options write what they give.
process_args-given :
    (z : ArgSizes) (args : List Arg) (k m : ℕ) (o : Options)
    → k < length o.tuner_type_limit
    → get_or o.tuner_type_limit k 0 ≡ m
    → (o.tuners ≡ 0 → m ≡ 0)
    → get_or (process_args z args o).tuner_type_limit k 0 ≡ given k m args
unfolding process_args process_arg
process_args-given z [] k m o h e clear = e
process_args-given z (tuners_arg j n ∷ args) k m o h e clear =
    process_args-given z args k (if j == k then n else m) (set_limit j n o) (rw set_limit-length h)
      (set_limit-given j n k m o h (ground (arith, e, clear))) (λ none_left. ground (arith, clear))
process_args-given z (port_arg n ∷ args) k m o h e clear = process_args-given z args k m _ h e clear
process_args-given z (iface_arg t ∷ args) k m o h e clear =
    process_args-given z args k m _ h e clear
process_args-given z (mld_arg ∷ args) k m o h e clear = process_args-given z args k m _ h e clear
process_args-given z (sock_path_arg t ∷ args) k m o h e clear =
    process_args-given z args k m _ h e clear
process_args-given z (tuner_max_arg n ∷ args) k m o h e clear =
    process_args-given z args k m _ h e clear
process_args-given z (debugmask_arg v ∷ args) k m o h e clear =
    process_args-given z args k m _ h e clear
process_args-given z (cam_disable_arg ∷ args) k m o h e clear =
    process_args-given z args k m _ h e clear
process_args-given z (logskipmask_arg v ∷ args) k m o h e clear =
    process_args-given z args k m _ h e clear
process_args-given z (lftp_arg ∷ args) k m o h e clear = process_args-given z args k m _ h e clear
process_args-given z (debug_arg ∷ args) k m o h e clear = process_args-given z args k m _ h e clear
process_args-given z (other_arg ∷ args) k m o h e clear = process_args-given z args k m _ h e clear

-- From a start at which no tuner was counted yet: where the command line gives a number of tuners for
-- some type, each type in the list has the last number that is given for it as its limit, and 0 where
-- none is given for it; without such an option the limits stay.
pub process_args-limits :
    (z : ArgSizes) (args : List Arg) (k : ℕ) (o : Options)
    → k < length o.tuner_type_limit
    → o.tuners ≡ 0
    → get_or (process_args z args o).tuner_type_limit k 0
      ≡ (if gives_tuners args then given k 0 args else get_or o.tuner_type_limit k 0)
unfolding process_args process_arg
process_args-limits z [] k o h e = refl
process_args-limits z (tuners_arg j n ∷ args) k o h e =
    process_args-given z args k (if j == k then n else 0) (set_limit j n o) (rw set_limit-length h)
      (set_limit-given j n k 0 o h (ground arith)) (λ none_left. ground arith)
process_args-limits z (port_arg n ∷ args) k o h e = process_args-limits z args k _ h e
process_args-limits z (iface_arg t ∷ args) k o h e = process_args-limits z args k _ h e
process_args-limits z (mld_arg ∷ args) k o h e = process_args-limits z args k _ h e
process_args-limits z (sock_path_arg t ∷ args) k o h e = process_args-limits z args k _ h e
process_args-limits z (tuner_max_arg n ∷ args) k o h e = process_args-limits z args k _ h e
process_args-limits z (debugmask_arg v ∷ args) k o h e = process_args-limits z args k _ h e
process_args-limits z (cam_disable_arg ∷ args) k o h e = process_args-limits z args k _ h e
process_args-limits z (logskipmask_arg v ∷ args) k o h e = process_args-limits z args k _ h e
process_args-limits z (lftp_arg ∷ args) k o h e = process_args-limits z args k _ h e
process_args-limits z (debug_arg ∷ args) k o h e = process_args-limits z args k _ h e
process_args-limits z (other_arg ∷ args) k o h e = process_args-limits z args k _ h e
