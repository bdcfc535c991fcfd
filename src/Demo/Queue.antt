-- ===== src/Demo/Queue.antt =====
-- The bytes of a request in the shared memory, and what the daemon reads of them.
use aka_smsd.Common.{
  ℕ, zero, suc, ◌+◌, ◌-◌, ◌^◌, ◌<◌, ◌≡◌, refl, sym, ap, ◌∙◌, arith, true, false, ◌&&◌, List, [],
  ◌∷◌, ◌++◌, ltb, length, drop, take-append, drop-append, length-append, append_assoc, append-nil,
  drop-drop,
}
use aka_smsd.Common.Int.{pos}
use aka_smsd.Common.Text.{IsText, c_str}
use aka_smsd.Operator.Words.{word_bytes, read_word-word_bytes}
use aka_smsd.Client.{
  System, Client, sms_send_register_number, sms_check_register_number, sms_un_register,
  sms_send_sms,
}
use aka_smsd.Demo.{
  Shm, Request, reg, unreg, check, bbs_send, left_bytes, copied, bbs_header, has_room, head_of,
  body_of, getbuf, pid_of,
}

length-left_bytes : (left : ℕ → ℕ) (i n : ℕ) → length (left_bytes left i n) ≡ n
length-left_bytes left i zero = refl
length-left_bytes left i (suc n) = omega (arith, length-left_bytes left (suc i) n)

pub length-copied :
    (left : ℕ → ℕ) (i n : ℕ) (s : List ℕ) → length s < n → length (copied left i n s) ≡ n
length-copied left i n s room = omega (
  arith,
  length-append s (0 ∷ left_bytes left (i + length s + 1) (n - length s - 1)),
  length-left_bytes left (i + length s + 1) (n - length s - 1),
)

c_str-end : (s rest : List ℕ) → IsText s → c_str (s ++ (0 ∷ rest)) ≡ s
unfolding c_str
c_str-end [] rest h = refl
c_str-end (x ∷ s) rest h = ground (arith, c_str-end s rest h.1)

pub c_str-copied :
    (left : ℕ → ℕ) (i n : ℕ) (s rest : List ℕ) → IsText s → c_str (copied left i n s ++ rest) ≡ s
c_str-copied left i n s rest h =
    ap c_str (append_assoc s (0 ∷ left_bytes left (i + length s + 1) (n - length s - 1)) rest)
    ∙ c_str-end s (left_bytes left (i + length s + 1) (n - length s - 1) ++ rest) h

-- The strings of a request have no zero in them, and its numbers are DWORDs.
abbrev pub IsRequest : Request → Type 0
IsRequest (reg pid phone id) = (pid < 2 ^ 32) × IsText phone × IsText id
IsRequest (unreg pid phone id) = (pid < 2 ^ 32) × IsText phone × IsText id
IsRequest (check pid phone id code) = (pid < 2 ^ 32) × IsText phone × IsText id × IsText code
IsRequest (bbs_send pid uid phone id target content) =
    (pid < 2 ^ 32) × (uid < 2 ^ 32) × IsText phone × IsText id × IsText target × IsText content

-- The call of the library for a request.
abbrev pub pass_on : (sys : System) → ℕ → Request → Client sys → Client sys
pass_on sys sn (reg pid phone id) c = (sms_send_register_number sys sn pid phone id c).0
pass_on sys sn (unreg pid phone id) c = (sms_un_register sys sn pid phone id c).0
pass_on sys sn (check pid phone id code) c =
    (sms_check_register_number sys sn pid phone id code c).0
pass_on sys sn (bbs_send pid uid phone id target content) c =
    (sms_send_sms sys sn pid uid id phone target content (pos 0) c).0

abbrev pub body_size : Request → ℕ
body_size (reg pid phone id) = 31
body_size (unreg pid phone id) = 31
body_size (check pid phone id code) = 48
body_size (bbs_send pid uid phone id target content) = 252

-- `memcpy` copies from the front on, so that it moves the bytes.
abbrev pub CopiesForwards : System → Type 0
CopiesForwards sys = (n : ℕ) (l : List ℕ) → sys.copy_down n l ≡ drop n l

pub getbuf_lem :
    (sys : System) (n : ℕ) (old bytes rest : List ℕ) (m : Shm)
    → CopiesForwards sys
    → length bytes ≡ n
    → m.queue ≡ bytes ++ rest
    → getbuf sys n old m ≡ (bytes, record m { queue = rest })
unfolding getbuf
getbuf_lem sys n old bytes rest m forwards size e =
    let fits : ltb (length (bytes ++ rest)) n ≡ false =
      ground (arith, length-append bytes rest, size) in
    let first = take-append n bytes rest size in
    let behind = drop-append n bytes rest size in
    rw (e, fits, first, forwards n (bytes ++ rest), behind) refl

pub length-head_of : (left : ℕ → ℕ) (r : Request) → length (head_of left r) ≡ 16
unfolding head_of
length-head_of left (reg pid phone id) = refl
length-head_of left (unreg pid phone id) = refl
length-head_of left (check pid phone id code) = refl
length-head_of left (bbs_send pid uid phone id target content) = refl

pub two_fields :
    (left : ℕ → ℕ) (phone id : List ℕ)
    → (ltb (length phone) 17 && ltb (length id) 14) ≡ true
    → length (copied left 16 17 phone ++ copied left 33 14 id) ≡ 31
two_fields left phone id room =
    let a : length phone < 17 = ground arith in
    let b : length id < 14 = ground arith in
    omega (
      arith,
      length-append (copied left 16 17 phone) (copied left 33 14 id),
      length-copied left 16 17 phone a,
      length-copied left 33 14 id b,
    )

pub rooms_of_check :
    (phone id code : List ℕ)
    → (ltb (length phone) 17 && (ltb (length id) 14 && ltb (length code) 17)) ≡ true
    → (length phone < 17) × (length id < 14) × (length code < 17)
rooms_of_check phone id code room = (ground arith, ground arith, ground arith)

pub rooms_of_send :
    (phone id target content : List ℕ)
    → ((ltb (length phone) 17 && ltb (length id) 14)
        && (ltb (length target) 17 && ltb (length content) 200))
      ≡ true
    → (length phone < 17) × (length id < 14) × (length target < 17) × (length content < 200)
rooms_of_send phone id target content room =
    (ground arith, ground arith, ground arith, ground arith)

pub length-body_of :
    (left : ℕ → ℕ) (r : Request) → has_room r ≡ true → length (body_of left r) ≡ body_size r
unfolding body_of has_room
length-body_of left (reg pid phone id) room = two_fields left phone id room
length-body_of left (unreg pid phone id) room = two_fields left phone id room
length-body_of left (check pid phone id code) room =
    let a : length phone < 17 = ground arith in
    let b : length id < 14 = ground arith in
    let c : length code < 17 = ground arith in
    omega (
      arith,
      length-append (copied left 16 17 phone) (copied left 33 14 id ++ copied left 47 17 code),
      length-append (copied left 33 14 id) (copied left 47 17 code),
      length-copied left 16 17 phone a,
      length-copied left 33 14 id b,
      length-copied left 47 17 code c,
    )
length-body_of left (bbs_send pid uid phone id target content) room =
    let a : length phone < 17 = ground arith in
    let b : length id < 14 = ground arith in
    let c : length target < 17 = ground arith in
    let d : length content < 200 = ground arith in
    omega (
      arith,
      length-append (copied left 20 17 phone)
          (copied left 37 14 id ++ (copied left 51 17 target ++ copied left 68 200 content)),
      length-append (copied left 37 14 id) (copied left 51 17 target ++ copied left 68 200 content),
      length-append (copied left 51 17 target) (copied left 68 200 content),
      length-copied left 20 17 phone a,
      length-copied left 37 14 id b,
      length-copied left 51 17 target c,
      length-copied left 68 200 content d,
    )

pub pid_of-bbs_header :
    (left : ℕ → ℕ) (type pid size : ℕ) → pid < 2 ^ 32 → pid_of (bbs_header left type pid size) ≡ pid
pid_of-bbs_header left type pid size small = read_word-word_bytes pid (word_bytes size) small

pub c_str-copied_last :
    (left : ℕ → ℕ) (i n : ℕ) (s : List ℕ) → IsText s → c_str (copied left i n s) ≡ s
c_str-copied_last left i n s h =
    ap c_str (sym (append-nil (copied left i n s))) ∙ c_str-copied left i n s [] h

pub drop_two :
    (m n : ℕ) (a b rest : List ℕ)
    → length a ≡ m
    → length b ≡ n
    → drop (m + n) (a ++ (b ++ rest)) ≡ rest
drop_two m n a b rest size size' =
    drop-drop m n (a ++ (b ++ rest))
    ∙ ap (drop n) (drop-append m a (b ++ rest) size)
    ∙ drop-append n b rest size'

pub drop_three :
    (l m n : ℕ) (a b c rest : List ℕ)
    → length a ≡ l
    → length b ≡ m
    → length c ≡ n
    → drop (l + (m + n)) (a ++ (b ++ (c ++ rest))) ≡ rest
drop_three l m n a b c rest size size' size'' =
    drop-drop l (m + n) (a ++ (b ++ (c ++ rest)))
    ∙ ap (drop (m + n)) (drop-append l a (b ++ (c ++ rest)) size)
    ∙ drop_two m n b c rest size' size''
