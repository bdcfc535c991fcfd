-- ===== src/Logger/Literals.antt =====
-- The texts that the server reads out of the statement.
use aka_smsd.Common.{
  ℕ, zero, suc, ◌-◌, ◌/◌, ◌≡◌, ◌≢◌, refl, sym, ap, ◌∙◌, arith, Bool, true, false, List, [], ◌∷◌,
  ◌++◌, map, ◌==◌, if◌then◌else◌, ltb, Bool-cases, inl, inr, append_assoc, append-nil, replicate,
  length,
}
use aka_smsd.Common.Int.{ℤ, pos, negsuc}
use aka_smsd.Common.Text.{c_str}
use aka_smsd.Common.Decimal.{print_digits, print_int}
use aka_smsd.Logger.{
  LocalTime, LogEntry, convert_date, print_padded, quote, replace_quote, clean, direction, Value,
  text, number, print_value, print_more, insert_into, values_behind, log_sql,
}

-- Where the server is in the statement: between literals, in one, or behind a backslash in one.
pub data Place : Type 0 where
  outside : Place
  inside behind_backslash : List ℕ → Place

abbrev pub enter : Bool → Place
enter is_quote = if is_quote then inside [] else outside

-- The literals of a statement. Two quotes in a row, which stand for one, do not occur.
unfoldable pub literals : Place → List ℕ → List (List ℕ)
literals place [] = []
literals outside (c ∷ s) = literals (enter (c == quote)) s
literals (behind_backslash word) (c ∷ s) = literals (inside (word ++ c ∷ [])) s
literals (inside word) (c ∷ s) =
    let ended = literals outside s in
    let longer = literals (if c == 92 then behind_backslash word else inside (word ++ c ∷ [])) s in
    if c == quote then word ∷ ended else longer

-- No quote and no backslash.
abbrev pub IsPlain : List ℕ → Type 0
IsPlain [] = Unit {0}
IsPlain (c ∷ s) = (c ≢ quote) × (c ≢ 92) × IsPlain s

abbrev texts_of : List Value → List (List ℕ)
texts_of [] = []
texts_of (text s ∷ vs) = s ∷ texts_of vs
texts_of (number n ∷ vs) = texts_of vs

abbrev ArePlain : List Value → Type 0
ArePlain [] = Unit {0}
ArePlain (text s ∷ vs) = IsPlain s × ArePlain vs
ArePlain (number n ∷ vs) = ArePlain vs

literals-skip : (s rest : List ℕ) → IsPlain s → literals outside (s ++ rest) ≡ literals outside rest
unfolding literals
literals-skip [] rest h = refl
literals-skip (c ∷ s) rest h = ground (arith, literals-skip s rest h.2)

literals-word :
    (word s rest : List ℕ)
    → IsPlain s
    → literals (inside word) (s ++ quote ∷ rest) ≡ (word ++ s) ∷ literals outside rest
unfolding literals
literals-word word [] rest h =
    ap (λ (w : List ℕ). w ∷ literals outside rest) (sym (append-nil word))
literals-word word (c ∷ s) rest h =
    let not_quote : (c == quote) ≡ false = ground (arith, h) in
    let not_slash : (c == 92) ≡ false = ground (arith, h) in
    rw (literals, not_quote, not_slash)
      (literals-word (word ++ c ∷ []) s rest h.2
        ∙ ap (λ (w : List ℕ). w ∷ literals outside rest) (append_assoc word (c ∷ []) s))

IsPlain-append : (s t : List ℕ) → IsPlain s → IsPlain t → IsPlain (s ++ t)
IsPlain-append [] t h k = k
IsPlain-append (c ∷ s) t h k = (h.0, h.1, IsPlain-append s t h.2 k)

print_digits-IsPlain : (fuel n : ℕ) → IsPlain (print_digits fuel n)
unfolding print_digits
print_digits-IsPlain zero n = tt
print_digits-IsPlain (suc fuel) n = elim (Bool-cases (ltb n 10)) [
  | inl small ↦ rw small (ground arith)
  | inr large ↦ rw large (
      IsPlain-append (print_digits fuel (n / 10)) _ (print_digits-IsPlain fuel (n / 10))
        (ground arith))
]

print_int-IsPlain : (n : ℤ) → IsPlain (print_int n)
unfolding print_int
print_int-IsPlain (pos n) = print_digits-IsPlain 10 n
print_int-IsPlain (negsuc n) = (ground arith, ground arith, print_digits-IsPlain 10 (suc n))

replicate-IsPlain : (n : ℕ) → IsPlain (replicate n b'0')
replicate-IsPlain zero = tt
replicate-IsPlain (suc n) = (ground arith, ground arith, replicate-IsPlain n)

print_padded-IsPlain : (width n : ℕ) → IsPlain (print_padded width n)
print_padded-IsPlain width n =
    IsPlain-append (replicate (width - length (print_int (pos n))) b'0') (print_int (pos n))
      (replicate-IsPlain (width - length (print_int (pos n)))) (print_int-IsPlain (pos n))

with_mark :
    (width n c : ℕ) (rest : List ℕ)
    → c ≢ quote
    → c ≢ 92
    → IsPlain rest
    → IsPlain (print_padded width n ++ c ∷ rest)
with_mark width n c rest h k plain =
    IsPlain-append (print_padded width n) (c ∷ rest) (print_padded-IsPlain width n) (h, k, plain)

convert_date-IsPlain : (t : LocalTime) → IsPlain (convert_date t)
unfolding convert_date
convert_date-IsPlain t = with_mark 4 t.year b'-' _ (ground arith) (ground arith) (
    with_mark 2 t.month b'-' _ (ground arith) (ground arith) (
      with_mark 2 t.day b' ' _ (ground arith) (ground arith) (
        with_mark 2 t.hour b':' _ (ground arith) (ground arith) (
          with_mark 2 t.minute b':' _ (ground arith) (ground arith)
            (print_padded-IsPlain 2 t.second)))))

literals-print_more :
    (vs : List Value) → ArePlain vs → literals outside (print_more vs) ≡ texts_of vs
unfolding literals
literals-print_more [] h = refl
literals-print_more (text s ∷ vs) h =
    ap (literals (inside [])) (append_assoc s (quote ∷ []) (print_more vs))
    ∙ literals-word [] s (print_more vs) h.0
    ∙ ap (◌∷◌ s) (literals-print_more vs h.1)
literals-print_more (number n ∷ vs) h =
    literals-skip (print_int n) (print_more vs) (print_int-IsPlain n) ∙ literals-print_more vs h

literals-print_values :
    (s : List ℕ) (vs : List Value)
    → IsPlain s
    → ArePlain vs
    → literals outside (print_value (text s) ++ print_more vs) ≡ s ∷ texts_of vs
unfolding literals
literals-print_values s vs h k = literals-print_more (text s ∷ vs) (h, k)

-- No zero byte and no backslash.
abbrev pub IsLoggable : List ℕ → Type 0
IsLoggable [] = Unit {0}
IsLoggable (c ∷ s) = (c ≢ 0) × (c ≢ 92) × IsLoggable s

clean_lem : (s : List ℕ) → IsLoggable s → clean s ≡ map replace_quote s
unfolding c_str
clean_lem [] h = refl
clean_lem (c ∷ s) h = ground (arith, clean_lem s h.2)

replaced-IsPlain : (s : List ℕ) → IsLoggable s → IsPlain (map replace_quote s)
replaced-IsPlain [] h = tt
replaced-IsPlain (c ∷ s) h = (ground arith, ground arith, replaced-IsPlain s h.2)

direction-IsPlain : (is_up : Bool) → IsPlain (direction is_up)
direction-IsPlain true = ground arith
direction-IsPlain false = ground arith

insert_into-IsPlain : IsPlain insert_into
insert_into-IsPlain = ground arith

-- When the five texts that name the sender, the receiver, the phone that pays, the BBS and the
-- operator hold no quote and no backslash, and the content holds no zero byte and no backslash, the
-- server reads exactly these literals out of the statement: the five texts, the two times, the
-- content with each single quote made a double one, and the direction. So no content of this kind
-- ends its literal early.
pub literals-log_sql :
    (local_time : ℕ → LocalTime) (e : LogEntry)
    → IsPlain e.source_no
    → IsPlain e.target_no
    → IsPlain e.fee_target_no
    → IsPlain e.child_id
    → IsPlain e.parent_id
    → IsLoggable e.content
    → literals outside (log_sql local_time e)
      ≡ e.source_no
        ∷ e.target_no
        ∷ e.fee_target_no
        ∷ e.child_id
        ∷ e.parent_id
        ∷ convert_date (local_time e.send_time)
        ∷ convert_date (local_time e.deliver_time)
        ∷ map replace_quote e.content
        ∷ direction e.is_up
        ∷ []
unfolding log_sql
literals-log_sql local_time e source target fee child parent content =
    let cleaned = clean_lem e.content content in
    let plain : IsPlain (clean e.content) = rw cleaned (replaced-IsPlain e.content content) in
    literals-skip insert_into _ insert_into-IsPlain
    ∙ literals-print_values e.source_no (values_behind local_time e) source (
      target,
      (
        fee,
        (
          child,
          (
            parent,
            (
              convert_date-IsPlain (local_time e.send_time),
              (
                convert_date-IsPlain (local_time e.deliver_time),
                (plain, (direction-IsPlain e.is_up, tt)),
              ),
            ),
          ),
        ),
      ),
    )
    ∙ ap
        (λ (c : List ℕ).
          e.source_no
          ∷ e.target_no
          ∷ e.fee_target_no
          ∷ e.child_id
          ∷ e.parent_id
          ∷ convert_date (local_time e.send_time)
          ∷ convert_date (local_time e.deliver_time)
          ∷ c
          ∷ direction e.is_up
          ∷ [])
        cleaned
