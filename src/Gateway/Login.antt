-- ===== src/Gateway/Login.antt =====
-- smsbbschildprivilegechecker.h: `addressInNet` and `loginUser`.
pub mod Nets
use aka_smsd.Common.{
  ℕ, ◌+◌, ◌-◌, ◌/◌, ◌%◌, ◌^◌, Bool, true, false, List, [], ◌∷◌, Option, none, some, ltb, ◌==◌,
  if◌then◌else◌, take,
}
use aka_smsd.Common.Int.{ℤ, pos, negsuc, to_unsigned, ◌==ℤ◌}
use aka_smsd.Common.Decimal.{atoi}
use aka_smsd.Sms.{max_child_code_len, max_child_name_len}
use aka_smsd.Gateway.World.{ChildRow, Env, Gw, Outcome, done, M}

-- `strrchr(s,'/')`: what stands in front of the last slash and behind it.
unfoldable pub split_at_slash : List ℕ → Option (List ℕ × List ℕ)
split_at_slash [] = none
split_at_slash (c ∷ s) = elim (split_at_slash s) [
  | some (before, behind) ↦ some (c ∷ before, behind)
  | none ↦ if c == b'/' then some ([], s) else none
]

abbrev pub is_connect_permitted : List ℕ → ℕ → Bool
is_connect_permitted addr port = true

abbrev pub can_receive : List ℕ → Bool
can_receive target_mobile_no = true

-- m_childCode has 5 bytes and m_childName stands behind it, so the write to
-- `targetChildCode[SMS_MAXCHILDNAME_LEN]` ends the name after 45 bytes.
abbrev pub name_end : ℕ
name_end = 45

module _ (env : Env) where
  abbrev pub shift_right : ℕ → ℕ → ℕ
  shift_right x distance = if ltb distance 32 then x / 2 ^ distance else env.wide_shift x distance

  -- The comparison of the two addresses, once `inet_aton` has read one.
  unfoldable pub same_net : ℕ → ℕ → Option ℕ → ℤ
  same_net addr mask_len none = negsuc 0
  same_net addr mask_len (some net) =
      let distance : ℕ = (2 ^ 32 + 32 - mask_len) % 2 ^ 32 in
      if shift_right addr distance == shift_right net distance then pos 0 else negsuc 0

  unfoldable pub in_parts : ℕ → Option (List ℕ × List ℕ) → ℤ
  unfolding same_net
  in_parts addr none = negsuc 0
  in_parts addr (some (s, p)) = same_net addr (to_unsigned 32 (atoi p)) (env.inet_aton s)

  -- `addr` is the address after `ntohl`.
  unfoldable pub address_in_net : ℕ → List ℕ → ℤ
  unfolding split_at_slash in_parts
  address_in_net addr net = in_parts addr (split_at_slash (take 49 net))

  -- The row of the table, if there is one.
  unfoldable pub login_as : ℕ → List ℕ → Option (List ChildRow) → M env Bool
  unfolding address_in_net
  login_as address child_code none s = done (false, s)
  login_as address child_code (some []) s = done (false, s)
  login_as address child_code (some (row ∷ _)) s =
      if address_in_net address row.login_net ==ℤ pos 0
      then done (
        true,
        record s {
          checker_code = child_code;
          child_code = take max_child_code_len child_code;
          child_name = take name_end (take max_child_name_len row.child_name);
          default_money_limit = row.default_money_limit;
        },
      )
      else done (false, s)

  unfoldable pub login_user : ℕ → List ℕ → List ℕ → M env Bool
  unfolding login_as
  login_user address child_code password s =
      login_as address child_code (env.select_child s.db child_code password) s
