-- ===== src/Deliver/Routes.antt =====
-- The way of an answer: from the name of the file that a storage writes, through the process that
-- distributes the files, to the BBS user whose number the phone answered to.
use mathlib.Core.List.{Memᴰ}
use aka_smsd.Common.{
  ℕ, ◌^◌, ◌≤◌, ◌<◌, ◌≡◌, refl, sym, ap, ◌∙◌, arith, ◌≢◌, true, false, ◌&&◌, ◌==◌, List, [], ◌∷◌,
  ◌++◌, some, ◌⊎◌, inl, inr, length, Bool, Bool-cases, if◌then◌else◌, append_assoc, take-append,
  take,
}
use aka_smsd.Common.Int.{pos}
use aka_smsd.Common.Text.{str_eq, str_eq_iff}
use aka_smsd.Common.Decimal.{print_int}
use aka_smsd.Sms.{max_child_code_len}
use aka_smsd.Storage.{file_name}
use aka_smsd.Gateway.Message.{sender_of}
use aka_smsd.Gateway.Deliver.{common, get_sms_type, get_target_id}
use aka_smsd.Gateway.Deliver.Addressing.{sender_of_lem, get_target_id-sender_of}
use aka_smsd.Deliver.{
  Child, Database, Conn, object, after_dot, serves, query_dest, dest_of, get_dest_p2c, bbs_inbox,
}

-- The rows of a table for which a condition holds.
abbrev pub rows_where : (Child → Bool) → List Child → List Child
rows_where cond [] = []
rows_where cond (child ∷ table) =
    if cond child then child ∷ rows_where cond table else rows_where cond table

-- The database answers each query with the rows of this table.
pub record Holds (db : Database) (store : db.Store) (table : List Child) : Type 0 where
  pub select_rows : (cond : Child → Bool) → db.select true store cond ≡ some (rows_where cond table)

-- No code is the beginning of another one.
abbrev pub ArePrefixFree : List Child → Type 0
ArePrefixFree table =
    (a b : Child) → Memᴰ a table → Memᴰ b table → serves b.child_id a ≡ true → a ≡ b

abbrev pub HasNoDot : List ℕ → Type 0
HasNoDot [] = Unit {0}
HasNoDot (c ∷ s) = (c ≢ b'.') × HasNoDot s

after_dot-append : (s t : List ℕ) → HasNoDot s → after_dot (s ++ b'.' ∷ t) ≡ some t
unfolding after_dot
after_dot-append [] t h = refl
after_dot-append (c ∷ s) t h = ground (arith, after_dot-append s t h.1)

and_true : (p q : Bool) → p && q ≡ true → (p ≡ true) × (q ≡ true)
and_true p q h = ground arith

false_ne_true : ¬ (false ≡ true)
false_ne_true e = cc

-- Two beginnings of one text: one of them is the beginning of the other.
prefixes_comparable :
    (a b s : List ℕ)
    → str_eq a (take (length a) s) ≡ true
    → str_eq b (take (length b) s) ≡ true
    → (str_eq a (take (length a) b) ≡ true) ⊎ (str_eq b (take (length b) a) ≡ true)
prefixes_comparable [] b s h k = inl refl
prefixes_comparable (x ∷ a) [] s h k = inr refl
prefixes_comparable (x ∷ a) (y ∷ b) [] h k = absurd (cc)
prefixes_comparable (x ∷ a) (y ∷ b) (z ∷ s) h k =
    let (x_z, a_s) = and_true (x == z) (str_eq a (take (length a) s)) h in
    let (y_z, b_s) = and_true (y == z) (str_eq b (take (length b) s)) k in
    elim (prefixes_comparable a b s a_s b_s) [
      | inl e ↦ inl (ground (arith, e))
      | inr e ↦ inr (ground (arith, e))
    ]

row_found :
    (cond : Child → Bool) (child : Child) (table : List Child)
    → Memᴰ child table
    → cond child ≡ true
    → (first : Child) × (rest : List Child) × (rows_where cond table ≡ first ∷ rest)
      × Memᴰ first table
      × (cond first ≡ true)
row_found cond child [] m h = elim m [ ]
row_found cond child (c ∷ table) m h = elim (Bool-cases (cond c)) [
  | inl e ↦ (c, rows_where cond table, rw e refl, Memᴰ.head refl, e)
  | inr e ↦ elim m [
    | Memᴰ.head same ↦ absurd (false_ne_true (sym e ∙ ap cond (sym same) ∙ h))
    | Memᴰ.tail m' ↦
        let (first, rest, rows, inside, holds) = row_found cond child table m' h in
        (first, rest, rw e rows, Memᴰ.tail inside, holds)
  ]
]

starts_with : (s t : List ℕ) → str_eq s (take (length s) (s ++ t)) ≡ true
starts_with s t = rw (take-append (length s) s t refl) ((str_eq_iff s s).1 refl)

-- For a table of codes of which none begins another, a row of it and a text that begins with the
-- row's code: the query has this row as its first.
row_found-ArePrefixFree :
    (table : List Child) (child : Child) (t : List ℕ)
    → ArePrefixFree table
    → Memᴰ child table
    → (rest : List Child) × (rows_where (serves (child.child_id ++ t)) table ≡ child ∷ rest)
row_found-ArePrefixFree table child t free inside =
    let code : List ℕ = child.child_id ++ t in
    let (first, rest, rows, m, holds) =
      row_found (serves code) child table inside (starts_with child.child_id t) in
    let same : first ≡ child =
      elim (prefixes_comparable first.child_id child.child_id code holds
        (starts_with child.child_id t)) [
          | inl e ↦ free first child m inside e
          | inr e ↦ sym (free child first inside m e)
        ] in
    (rest, rows ∙ ap (λ (c : Child). c ∷ rest) same)

dest_of-serves :
    (db : Database) (store : db.Store) (table : List Child) (child : Child) (t : List ℕ)
    → Holds db store table
    → ArePrefixFree table
    → Memᴰ child table
    → dest_of db store (child.child_id ++ t) (object true)
      ≡ (object true, bbs_inbox child.child_name)
unfolding dest_of query_dest
dest_of-serves db store table child t holds free inside =
    let (rest, rows) = row_found-ArePrefixFree table child t free inside in
    rw (holds.select_rows (serves (child.child_id ++ t)), rows) refl

get_dest-code :
    (db : Database) (store : db.Store) (phone code : List ℕ) (conn : Conn)
    → HasNoDot phone
    → get_dest_p2c db store (phone ++ b'.' ∷ code) conn ≡ some (dest_of db store code conn)
unfolding get_dest_p2c
get_dest-code db store phone code conn dotless =
    rw (after_dot-append phone code dotless, get_dest_p2c) refl

-- In a database whose BBS codes do not begin one another: a BBS with a code of at most four
-- characters sends in the name of one of its users, from 1 below 2 ^ 31. When the phone answers to
-- that number, the file that the operator's storage makes of the answer goes to the directory of
-- exactly this BBS, and the BBS's gateway reads the user's number out of the target number.
pub get_dest-file_name :
    (db : Database) (store : db.Store) (table : List Child) (child : Child) (user time count : ℕ)
    (phone : List ℕ)
    → Holds db store table
    → ArePrefixFree table
    → Memᴰ child table
    → length child.child_id ≤ max_child_code_len
    → 0 < user
    → user < 2 ^ 31
    → HasNoDot phone
    → (get_dest_p2c db store
          (file_name phone (sender_of child.child_id user) time count)
          (object true)
        ≡ some (object true, bbs_inbox child.child_name))
      × (get_sms_type child.child_id (sender_of child.child_id user) ≡ common)
      × (get_target_id child.child_id (sender_of child.child_id user) ≡ user)
get_dest-file_name db store table child user time count phone holds free inside short some_user
      small dotless =
    let rest : List ℕ = b'.' ∷ (print_int (pos time) ++ (b'.' ∷ print_int (pos count))) in
    let number = sender_of_lem child.child_id user short some_user small in
    let (target, kind) = get_target_id-sender_of child.child_id user short some_user small in
    let routed =
      get_dest-code db store phone (sender_of child.child_id user ++ rest) (object true) dotless in
    let to_child : dest_of db store (sender_of child.child_id user ++ rest) (object true)
        ≡ (object true, bbs_inbox child.child_name) =
      rw (number, append_assoc child.child_id (print_int (pos user)) rest)
        (dest_of-serves db store table child (print_int (pos user) ++ rest) holds free inside) in
    (routed ∙ ap some to_child, kind, target)
