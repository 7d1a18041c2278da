-- ===== src/Clerk/Single/Maybe.antt =====
-- What the answers of the single server's clerk mean.
use mit_distro_sys.Common.Assoc.{lookup}
use mit_distro_sys.Common.{
  string_eq, nat_eq, ℕ, suc, ◌≤◌, String, ◌≡◌, refl, List, [], ◌∷◌, ◌++◌, arith, if◌then◌else◌,
  ==_refl, beq_self, sym, ◌∙◌, ◌≢◌, ◌⊎◌, inl, some, ◌+◌, ◌^◌, ◌<◌, ap, subst, inr, Bool, true,
  false, ◌||◌, Option-cases, length,
}
use mit_distro_sys.Kv.Api.{
  err_no_key, err_version, err_wrong_leader, err_wrong_group, err_retry_exhausted,
  err_illegal_operation, err_empty, err_maybe, Err, PutArgs, ok,
}
use mit_distro_sys.Kv.Api.{put_into, check_version}
use mit_distro_sys.Kv.Server.{KvServer, put}
use mit_distro_sys.Kv.Model.Refinement.{Op, write, read, after}
use mit_distro_sys.Kv.Model.Once.{run_all, successes, is_ok, version_of, successes-le-one}
use mit_distro_sys.Clerk.Single.{
  resend, Fate, Attempt, request_lost, reply_lost, delivered, call_put, clerk_put,
}

-- What the server runs of an attempt, and after it.
abbrev pub arrives : Fate → PutArgs → List Op → List Op
arrives request_lost args later = later
arrives reply_lost args later = write args ∷ later
arrives delivered args later = write args ∷ []

-- What the server runs during a Put of the clerk: the others' operations and the calls that arrive.
abbrev pub trace : PutArgs → List Attempt → List Op
trace args [] = []
trace args (a ∷ rest) = a.0 ++ arrives a.1 args (trace args rest)

abbrev pub count_ok : Err → ℕ → ℕ
count_ok e n = if is_ok e then suc n else n

-- How often the server performs the Put.
abbrev pub performed : KvServer → PutArgs → List Attempt → ℕ
performed kv args [] = 0
performed kv args (a ∷ rest) =
    let kv' = run_all kv a.0 in
    elim a.1 [
      | request_lost ↦ performed kv' args rest
      | reply_lost ↦ count_ok (put kv' args).1.err (performed (put kv' args).0 args rest)
      | delivered ↦ count_ok (put kv' args).1.err 0
    ]

successes-append :
    (key : String) (version : ℕ) (kv : KvServer) (xs ys : List Op)
    → successes key version (run_all kv xs) ys ≤ successes key version kv (xs ++ ys)
successes-append key version kv [] ys = omega arith
successes-append key version kv (read args ∷ xs) ys = successes-append key version kv xs ys
successes-append key version kv (write args ∷ xs) ys =
    ground (arith, successes-append key version (put kv args).0 xs ys)

run_all-append :
    (kv : KvServer) (xs ys : List Op) → run_all kv (xs ++ ys) ≡ run_all (run_all kv xs) ys
run_all-append kv [] ys = refl
run_all-append kv (op ∷ xs) ys = run_all-append (after kv op) xs ys

performed-le-successes :
    (kv : KvServer) (args : PutArgs) (attempts : List Attempt)
    → performed kv args attempts ≤ successes args.key args.version kv (trace args attempts)
performed-le-successes kv args [] = omega arith
performed-le-successes kv args ((others, request_lost) ∷ rest) = omega (
  arith,
  performed-le-successes (run_all kv others) args rest,
  successes-append args.key args.version kv others (trace args rest),
)
performed-le-successes kv args ((others, reply_lost) ∷ rest) =
    let kv' = run_all kv others in
    ground (
      arith,
      performed-le-successes (put kv' args).0 args rest,
      beq_self args.key,
      ==_refl args.version,
      successes-append args.key args.version kv others (write args ∷ trace args rest),
    )
performed-le-successes kv args ((others, delivered) ∷ rest) = ground (
  arith,
  beq_self args.key,
  ==_refl args.version,
  successes-append args.key args.version kv others (write args ∷ []),
)

-- A resent Put is never answered but with ErrMaybe.
resend-maybe :
    (kv : KvServer) (args : PutArgs) (attempts : List Attempt) (e : Err)
    → (resend kv args attempts).1 ≡ some e
    → e ≡ err_maybe
unfolding resend call_put
resend-maybe kv args [] e h = ground arith
resend-maybe kv args ((others, request_lost) ∷ rest) e h =
    resend-maybe (run_all kv others) args rest e h
resend-maybe kv args ((others, reply_lost) ∷ rest) e h =
    resend-maybe (put (run_all kv others) args).0 args rest e h
resend-maybe kv args ((others, delivered) ∷ rest) e h = ground arith

resend-run_all :
    (kv : KvServer) (args : PutArgs) (attempts : List Attempt)
    → (resend kv args attempts).0 ≡ run_all kv (trace args attempts)
unfolding resend call_put
resend-run_all kv args [] = refl
resend-run_all kv args ((others, request_lost) ∷ rest) =
    resend-run_all (run_all kv others) args rest ∙ sym (run_all-append kv others (trace args rest))
resend-run_all kv args ((others, reply_lost) ∷ rest) =
    resend-run_all (put (run_all kv others) args).0 args rest
    ∙ sym (run_all-append kv others (write args ∷ trace args rest))
resend-run_all kv args ((others, delivered) ∷ rest) =
    sym (run_all-append kv others (write args ∷ []))

-- What an answer says of how often the Put was performed.
abbrev pub Meant : Err → ℕ → Type 0
Meant ok n = n ≡ 1
Meant err_maybe n = n ≤ 1
Meant _ n = n ≡ 0

first-Meant : (e : Err) → e ≢ err_maybe → Meant e (count_ok e 0)
first-Meant ok h = refl
first-Meant err_maybe h = absurd (h refl)
first-Meant err_no_key h = refl
first-Meant err_version h = refl
first-Meant err_wrong_leader h = refl
first-Meant err_wrong_group h = refl
first-Meant err_retry_exhausted h = refl
first-Meant err_illegal_operation h = refl
first-Meant err_empty h = refl

put-ne-maybe : (kv : KvServer) (args : PutArgs) → (put kv args).1.err ≢ err_maybe
unfolding put put_into check_version
put-ne-maybe kv args = elim (Option-cases (lookup args.key kv.kvm)) [
  | inl e ↦ rw e (ground arith)
  | inr (v, e) ↦ rw e (ground arith)
]

clerk_put-first :
    (kv : KvServer) (args : PutArgs) (attempts : List Attempt) (e : Err)
    → (clerk_put kv args attempts).1 ≡ some e
    → (e ≡ err_maybe) ⊎ (e ≢ err_maybe) × (performed kv args attempts ≡ count_ok e 0)
unfolding clerk_put call_put
clerk_put-first kv args [] e h = absurd (ground arith)
clerk_put-first kv args ((others, request_lost) ∷ rest) e h =
    inl (resend-maybe (run_all kv others) args rest e h)
clerk_put-first kv args ((others, reply_lost) ∷ rest) e h =
    inl (resend-maybe (put (run_all kv others) args).0 args rest e h)
clerk_put-first kv args ((others, delivered) ∷ rest) e h =
    let same : (put (run_all kv others) args).1.err ≡ e = ground arith in
    inr (
      subst (λ x. x ≢ err_maybe) same (put-ne-maybe (run_all kv others) args),
      ap (λ x. count_ok x 0) same,
    )

clerk_put-run_all :
    (kv : KvServer) (args : PutArgs) (attempts : List Attempt)
    → (clerk_put kv args attempts).0 ≡ run_all kv (trace args attempts)
unfolding clerk_put call_put
clerk_put-run_all kv args [] = refl
clerk_put-run_all kv args ((others, request_lost) ∷ rest) =
    resend-run_all (run_all kv others) args rest ∙ sym (run_all-append kv others (trace args rest))
clerk_put-run_all kv args ((others, reply_lost) ∷ rest) =
    resend-run_all (put (run_all kv others) args).0 args rest
    ∙ sym (run_all-append kv others (write args ∷ trace args rest))
clerk_put-run_all kv args ((others, delivered) ∷ rest) =
    sym (run_all-append kv others (write args ∷ []))

-- When the clerk's Put returns, over any losses and with any operations of others in between, the
-- server has run those operations and the calls that arrived. It performed the Put exactly once if
-- the answer is OK, never if it is another error, and at most once if it is ErrMaybe, while there is
-- room for that many versions in 64 bits.
pub clerk_put-Meant :
    (kv : KvServer) (args : PutArgs) (attempts : List Attempt) (e : Err)
    → (clerk_put kv args attempts).1 ≡ some e
    → version_of (lookup args.key kv.kvm) + length (trace args attempts) < 2 ^ 64
    → ((clerk_put kv args attempts).0 ≡ run_all kv (trace args attempts))
      × Meant e (performed kv args attempts)
clerk_put-Meant kv args attempts e h room = (
  clerk_put-run_all kv args attempts,
  elim (clerk_put-first kv args attempts e h) [
    | inl maybe ↦
        subst (λ x. Meant x (performed kv args attempts)) (sym maybe)
          (omega (
            arith,
            performed-le-successes kv args attempts,
            successes-le-one args.key args.version kv (trace args attempts) room,
          ))
    | inr (other, same) ↦ subst (Meant e) (sym same) (first-Meant e other)
  ],
)

abbrev pub is_delivered : Fate → Bool
is_delivered delivered = true
is_delivered _ = false

abbrev pub any_delivered : List Attempt → Bool
any_delivered [] = false
any_delivered (a ∷ rest) = is_delivered a.1 || any_delivered rest

resend_returns :
    (kv : KvServer) (args : PutArgs) (attempts : List Attempt)
    → any_delivered attempts ≡ true
    → (e : Err) × ((resend kv args attempts).1 ≡ some e)
unfolding resend call_put
resend_returns kv args [] h = absurd (ground arith)
resend_returns kv args ((others, request_lost) ∷ rest) h =
    resend_returns (run_all kv others) args rest h
resend_returns kv args ((others, reply_lost) ∷ rest) h =
    resend_returns (put (run_all kv others) args).0 args rest h
resend_returns kv args ((others, delivered) ∷ rest) h = (err_maybe, refl)

-- The clerk's Put returns once the request and the reply of one call come through.
pub clerk_put_returns :
    (kv : KvServer) (args : PutArgs) (attempts : List Attempt)
    → any_delivered attempts ≡ true
    → (e : Err) × ((clerk_put kv args attempts).1 ≡ some e)
unfolding clerk_put call_put
clerk_put_returns kv args [] h = absurd (ground arith)
clerk_put_returns kv args ((others, request_lost) ∷ rest) h =
    resend_returns (run_all kv others) args rest h
clerk_put_returns kv args ((others, reply_lost) ∷ rest) h =
    resend_returns (put (run_all kv others) args).0 args rest h
clerk_put_returns kv args ((others, delivered) ∷ rest) h =
    ((put (run_all kv others) args).1.err, refl)
