-- ===== src/Gateway/Login/Nets.antt =====
-- Which addresses belong to a net, and what a login leaves behind.
use aka_smsd.Common.{
  ℕ, ◌+◌, ◌-◌, ◌/◌, ◌%◌, ◌^◌, ◌≤◌, ◌<◌, ◌≡◌, ◌≢◌, refl, sym, ap, ◌∙◌, arith, true, false, List, [],
  ◌∷◌, ◌++◌, none, some, ◌⊎◌, inl, inr, Bool-cases, ◌==◌, if◌then◌else◌, ltb, length, take,
  take_all,
}
use aka_smsd.Common.Int.{pos, negsuc}
use aka_smsd.Common.Decimal.{atoi}
use aka_smsd.Gateway.Login.{
  split_at_slash, same_net, in_parts, address_in_net, login_as, login_user,
}
use aka_smsd.Gateway.World.{ChildRow, Env, Gw, done}

abbrev pub HasNoSlash : List ℕ → Type 0
HasNoSlash [] = Unit {0}
HasNoSlash (c ∷ s) = (c ≢ b'/') × HasNoSlash s

no_slash : (s : List ℕ) → HasNoSlash s → split_at_slash s ≡ none
unfolding split_at_slash
no_slash [] h = refl
no_slash (c ∷ s) h = ground (arith, no_slash s h.1, h.0)

split_at_slash-append : (s p : List ℕ) → HasNoSlash p → split_at_slash (s ++ b'/' ∷ p) ≡ some (s, p)
unfolding split_at_slash
split_at_slash-append [] p h = rw (split_at_slash, no_slash p h) refl
split_at_slash-append (c ∷ s) p h = rw (split_at_slash, split_at_slash-append s p h) refl

module _ (env : Env) where
  -- For a net that is written as an address, a slash and a mask length from 1 to 32, in at most 49
  -- characters: `addressInNet` answers 0 for the addresses whose leading bits, as many as the mask
  -- length, are those of the net, and -1 for all others.
  pub address_in_net_lem :
      (addr : ℕ) (s mask : List ℕ) (net len : ℕ)
      → HasNoSlash mask
      → length (s ++ b'/' ∷ mask) ≤ 49
      → env.inet_aton s ≡ some net
      → atoi mask ≡ pos len
      → 0 < len
      → len ≤ 32
      → address_in_net env addr (s ++ b'/' ∷ mask)
        ≡ (if addr / 2 ^ (32 - len) == net / 2 ^ (32 - len) then pos 0 else negsuc 0)
  unfolding address_in_net in_parts same_net
  address_in_net_lem addr s mask net len clean short found number positive small =
      let whole = take_all 49 (s ++ b'/' ∷ mask) short in
      let parts = split_at_slash-append s mask clean in
      let wrapped : len % 2 ^ 32 ≡ len = omega arith in
      let distance : (2 ^ 32 + 32 - len) % 2 ^ 32 ≡ 32 - len = omega arith in
      let narrow : ltb (32 - len) 32 ≡ true = ground arith in
      rw (whole, parts, number, found, wrapped, distance, narrow) refl

  -- For a name and a password whose first row in the database has such a net, `loginUser` answers
  -- TRUE to exactly the addresses whose leading bits, as many as the mask length, are those of the
  -- net. Then the process goes by the first four characters of the name, and the privilege checker
  -- by the whole name, so for a name of at most four characters both go by it, and the limit is
  -- that of the row. To any other address it answers FALSE, and nothing has changed.
  pub login_user_outcome :
      (s : Gw env) (address : ℕ) (name password : List ℕ) (row : ChildRow) (rows : List ChildRow)
      (text mask : List ℕ) (net len : ℕ)
      → env.select_child s.db name password ≡ some (row ∷ rows)
      → row.login_net ≡ text ++ b'/' ∷ mask
      → HasNoSlash mask
      → length (text ++ b'/' ∷ mask) ≤ 49
      → env.inet_aton text ≡ some net
      → atoi mask ≡ pos len
      → 0 < len
      → len ≤ 32
      → ((address / 2 ^ (32 - len) ≡ net / 2 ^ (32 - len))
          × (s' : Gw env) × (login_user env address name password s ≡ done (true, s'))
          × (s'.checker_code ≡ name)
          × (s'.child_code ≡ take 4 name)
          × (length name ≤ 4 → s'.checker_code ≡ s'.child_code)
          × (s'.default_money_limit ≡ row.default_money_limit)
          × (s'.db ≡ s.db))
        ⊎ ((address / 2 ^ (32 - len) ≢ net / 2 ^ (32 - len))
            × (login_user env address name password s ≡ done (false, s)))
  unfolding login_user login_as
  login_user_outcome s address name password row rows text mask net len found in_net clean short
        known number positive small =
      let answer =
        ap (address_in_net env address) in_net
        ∙ address_in_net_lem address text mask net len clean short known number positive small in
      elim (Bool-cases (address / 2 ^ (32 - len) == net / 2 ^ (32 - len))) [
        | inl inside ↦ inl (
          ground (arith, inside),
          record s {
            checker_code = name;
            child_code = take 4 name;
            child_name = take 45 (take 50 row.child_name);
            default_money_limit = row.default_money_limit;
          },
          rw (login_user, found, answer, inside) refl,
          refl,
          refl,
          (λ few. sym (take_all 4 name few)),
          refl,
          refl,
        )
        | inr outside ↦ inr (ground (arith, outside), rw (login_user, found, answer, outside) refl)
      ]
