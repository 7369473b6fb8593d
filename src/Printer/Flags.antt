-- ===== src/Printer/Flags.antt =====
-- The flags of the command line, as they are parsed and as they are printed.
use Prim.Native.Nat.{bit_or}
use mathlib.Core.Bool.{Bool, true, false, not, ◌&&◌}
use win_io.Base.{
  ℕ, zero, suc, ◌<◌, ◌≡◌, inl, inr, refl, ap, arith, some, List, [], ◌∷◌, ◌==◌, if◌then◌else◌,
  Bool-cases,
}
use win_io.Base.Outcome.{Outcome, done, failed_assert, ◌>>=◌}
use win_io.Printer.{
  default_options, Text, text_eq, Options, notify_filters, time_argument, get_filter_from_string,
  log_filters, log_flags, parse_flag, parse_flags, parse_argument, parse_arguments,
  parse_command_line,
}

-- Whether every number below `n` passes a test.
abbrev pub all_below : ℕ → (ℕ → Bool) → Bool
all_below zero p = true
all_below (suc n) p = p n && all_below n p

pub all_below-true : (n : ℕ) (p : ℕ → Bool) (x : ℕ) → all_below n p ≡ true → x < n → p x ≡ true
all_below-true zero p x all less = absurd (omega arith)
all_below-true (suc n) p x all less = ground (arith, all_below-true n p x)

-- The filters that a text of them alone stands for, with those of `m`.
abbrev mask : Text → ℕ → Outcome ℕ
mask [] m = done m
mask (c ∷ cs) m = get_filter_from_string (c ∷ []) >>= λ flag. mask cs (bit_or m flag)

-- No character is '.' or 'v'.
abbrev only_filters : Text → Bool
only_filters [] = true
only_filters (c ∷ cs) = not (c == 46) && (not (c == 118) && only_filters cs)

parse_flags-mask :
    (cs : Text) (o : Options) (m : ℕ)
    → only_filters cs ≡ true
    → mask cs o.notify_filter ≡ done m
    → parse_flags cs o ≡ done (record o { notify_filter = m })
unfolding parse_flags parse_flag
parse_flags-mask [] o m only same =
    let masks : o.notify_filter ≡ m = ground (arith, same) in rw masks refl
parse_flags-mask (c ∷ cs) o m only same =
    go (get_filter_from_string (c ∷ [])) refl (λ o' others. parse_flags-mask cs o' m others)
  where
    go :
        (r : Outcome ℕ)
        → get_filter_from_string (c ∷ []) ≡ r
        → ((o' : Options)
            → only_filters cs ≡ true
            → mask cs o'.notify_filter ≡ done m
            → parse_flags cs o' ≡ done (record o' { notify_filter = m }))
        → parse_flags (c ∷ cs) o ≡ done (record o { notify_filter = m })
    go failed_assert fails rest = absurd (ground (arith, rw fails at same))
    go (done flag) finds rest =
        let not_dot : (c == 46) ≡ false = ground (arith, only) in
        let not_v : (c == 118) ≡ false = ground (arith, only) in
        let others : only_filters cs ≡ true = ground (arith, only) in
        rw (not_dot, not_v, finds)
          (rest (record o { notify_filter = bit_or o.notify_filter flag }) others
            (rw finds at same))

abbrev is_mask : Outcome ℕ → ℕ → Bool
is_mask failed_assert m = false
is_mask (done n) m = n == m

is_mask-done : (r : Outcome ℕ) (m : ℕ) → is_mask r m ≡ true → r ≡ done m
is_mask-done failed_assert m same = absurd (ground (arith, same))
is_mask-done (done n) m same = ap done (ground (arith, same))

-- The flags that are printed for a set of filters without SECURITY stand for it, and are not "time".
abbrev good : ℕ → Bool
good m =
    let text = log_filters notify_filters m in
    only_filters text && (is_mask (mask text 0) m && not (text_eq text time_argument))

all-good : all_below 128 good ≡ true
unfolding get_filter_from_string
all-good = refl

parse_flags-log_filters :
    (m : ℕ) (o : Options)
    → m < 128
    → o.notify_filter ≡ 0
    → parse_flags (log_filters notify_filters m) o ≡ done (record o { notify_filter = m })
parse_flags-log_filters m o less clear =
    let fine : good m ≡ true = all_below-true 128 good m all-good less in
    let text = log_filters notify_filters m in
    let only : only_filters text ≡ true = ground (arith, fine) in
    let masks : is_mask (mask text 0) m ≡ true = ground (arith, fine) in
    parse_flags-mask text o m only (rw clear (is_mask-done (mask text 0) m masks))

-- The options, but for the time, before the flags are parsed.
abbrev cleared : Options → Options
cleared o = record o {
  watch_sub_tree = true;
  notify_filter = 0;
  verbose = false;
  print_time = false;
}

parse_flags-log_flags :
    (o : Options)
    → o.notify_filter < 128
    → parse_flags (log_flags o) (cleared o) ≡ done (record o { print_time = false })
unfolding log_flags parse_flags parse_flag
parse_flags-log_flags o less =
    let rest = λ (v r : Bool).
      parse_flags-log_filters o.notify_filter
        (record (cleared o) { verbose = v; watch_sub_tree = r }) less refl in
    elim (Bool-cases o.verbose) [
      | inl v ↦ elim (Bool-cases o.watch_sub_tree) [
        | inl r ↦ rw (v, r) (rest true true)
        | inr r ↦ rw (v, r) (rest true false)
      ]
      | inr v ↦ elim (Bool-cases o.watch_sub_tree) [
        | inl r ↦ rw (v, r) (rest false true)
        | inr r ↦ rw (v, r) (rest false false)
      ]
    ]

log_flags-time : (o : Options) → o.notify_filter < 128 → text_eq (log_flags o) time_argument ≡ false
unfolding log_flags
log_flags-time o less =
    let fine : good o.notify_filter ≡ true =
      all_below-true 128 good o.notify_filter all-good less in
    elim (Bool-cases o.verbose) [
      | inl v ↦ rw v refl
      | inr v ↦ elim (Bool-cases o.watch_sub_tree) [
        | inl r ↦ rw (v, r) (ground (arith, fine))
        | inr r ↦ rw (v, r) refl
      ]
    ]

-- The arguments that LogOptions prints, in the order of the command line, and "time" if it is set.
abbrev pub printed : (exe_path : Text) → Options → List Text
printed exe_path o =
    exe_path ∷ o.directory ∷ log_flags o ∷ (if o.print_time then time_argument ∷ [] else [])

-- The options that LogOptions prints are read back as they were, from a command line of the
-- directory, the printed flags and "time", if some filter is set, and SECURITY is not.
pub parse_command_line-printed :
    (exe_path : Text) (o : Options)
    → 0 < o.notify_filter
    → o.notify_filter < 128
    → parse_command_line (printed exe_path o) default_options ≡ done (some o)
unfolding parse_command_line parse_arguments parse_argument log_flags
parse_command_line-printed exe_path o some_filter less =
    let flags = parse_flags-log_flags o less in
    let no_time = log_flags-time o less in
    let is_set : (o.notify_filter == 0) ≡ false = ground (arith, some_filter) in
    elim (Bool-cases o.print_time) [
      | inl t ↦ rw (t, no_time, flags, is_set) refl
      | inr t ↦ rw (t, no_time, flags, is_set) refl
    ]
