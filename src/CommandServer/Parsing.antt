-- ===== src/CommandServer/Parsing.antt =====
-- What `parse_command` of ibctl/src/command_server.rs reads: the bounds of an IB status, and that
-- the commands with one argument are read as they are written.
use ibctl.Base.{
  ℕ, zero, suc, ◌≡◌, ◌≢◌, ◌≤◌, subst, true, false, Option, none, some, List, [], ◌∷◌, arith, inl,
  inr, Option-cases, length, take, filter_by, get_elem?, All, ◌==◌,
}
use ibctl.Base.Text.{Text, trim}
use ibctl.Base.Words.{Casing, is_control, split_whitespace, splitn, trim_matches}
use ibctl.Machine.Command.{Command, ib_status, set_state, set_restart_time, resume_reconnect}
use ibctl.CommandServer.{
  ParsedCommand, action, required, get_or, is_status, clean_reason, not_control, parse_ib_status,
  parse_verb, parse_pause, parse_logs, parse_command,
}

abbrev pub IsPrinting : ℕ → Type 0
IsPrinting c = is_control c ≡ false

filter_by-IsPrinting : (s : Text) → All IsPrinting (filter_by not_control s)
filter_by-IsPrinting [] = tt
filter_by-IsPrinting (c ∷ cs) = ground (arith, filter_by-IsPrinting cs)

take-IsPrinting : (n : ℕ) (s : Text) → All IsPrinting s → All IsPrinting (take n s)
take-IsPrinting zero s p = tt
take-IsPrinting (suc n) [] p = tt
take-IsPrinting (suc n) (c ∷ cs) (p, ps) = (p, take-IsPrinting n cs ps)

length-take : (n : ℕ) (s : Text) → length (take n s) ≤ n
length-take zero s = omega arith
length-take (suc n) [] = omega arith
length-take (suc n) (c ∷ cs) = omega (arith, length-take n cs)

-- A reason that has been cleaned.
abbrev pub IsClean : Text → Type 0
IsClean reason = All IsPrinting reason × (length reason ≤ 256)

clean_reason-IsClean : (raw : Text) → IsClean (clean_reason raw)
unfolding clean_reason
clean_reason-IsClean raw =
    let text = trim_matches (λ c. c == b'"') raw in
    (
      take-IsPrinting 256 (filter_by not_control text) (filter_by-IsPrinting text),
      length-take 256 (filter_by not_control text),
    )

required-ne :
    (f : Text → Command) (t : Text) (s r : Text)
    → ((x : Text) → f x ≢ ib_status s r)
    → required f t ≢ some (action (ib_status s r))
required-ne f [] s r n = λ e. ground arith
required-ne f (c ∷ cs) s r n = λ e. n (c ∷ cs) (cc)

pause-ne : (t s r : Text) → some (parse_pause t) ≢ some (action (ib_status s r))
unfolding parse_pause
pause-ne t s r = elim (Option-cases (get_elem? (split_whitespace t) 1)) [
  | inl e ↦ λ f. ground (arith, e)
  | inr (x, e) ↦ λ f. ground (arith, e)
]

verb_lem :
    (verb trimmed : Text) (parts : List Text) (s r : Text)
    → parse_verb verb trimmed parts ≡ some (action (ib_status s r))
    → parse_ib_status trimmed ≡ some (action (ib_status s r))
unfolding parse_verb parse_logs
verb_lem verb trimmed parts s r h = ground (
  arith,
  pause-ne trimmed s r,
  required-ne resume_reconnect (trim (get_or [] (get_elem? (splitn 2 32 trimmed) 1))) s r
      (λ x e. ground arith),
  required-ne set_state (get_or [] (get_elem? (split_whitespace trimmed) 1)) s r
      (λ x e. ground arith),
  required-ne set_restart_time (trim (get_or [] (get_elem? (splitn 2 32 trimmed) 1))) s r
      (λ x e. ground arith),
)

ib_status_lem :
    (trimmed s r : Text)
    → parse_ib_status trimmed ≡ some (action (ib_status s r))
    → (is_status s ≡ true) × IsClean r
unfolding parse_ib_status
ib_status_lem trimmed s r h =
    let raw = get_or [] (get_elem? (splitn 3 32 trimmed) 2) in
    let (printing, short) = clean_reason-IsClean raw in
    let same : clean_reason raw ≡ r = ground (arith, h) in
    (
      ground (arith, h),
      (subst (All IsPrinting) same printing, subst (λ (t : Text). length t ≤ 256) same short),
    )

-- Whatever the line is, an IB status that reaches the state machine is one of the four known ones,
-- and its reason has no control character and at most 256 characters.
parse_command-ib_status :
    (casing : Casing) (input s r : Text)
    → parse_command casing input ≡ some (action (ib_status s r))
    → (is_status s ≡ true) × IsClean r
unfolding parse_command
parse_command-ib_status casing input s r =
    parts_lem (split_whitespace (casing.to_uppercase (trim input)))
  where
    parts_lem :
        (parts : List Text)
        → elim parts as (λ (ps : List Text). Option ParsedCommand) [
          | [] ↦ none
          | verb ∷ rest ↦ parse_verb verb (trim input) (verb ∷ rest)
        ]
          ≡ some (action (ib_status s r))
        → (is_status s ≡ true) × IsClean r
    parts_lem [] h = ground arith
    parts_lem (verb ∷ rest) h =
        ib_status_lem (trim input) s r (verb_lem verb (trim input) (verb ∷ rest) s r h)
