-- ===== src/Gateway/Account/Postings.antt =====
-- How the row of a user follows what is posted to the account.
use aka_smsd.Common.{ℕ, ◌≡◌, refl, sym, ap, ◌∙◌, List, [], ◌∷◌, ◌++◌, some, subst}
use aka_smsd.Gateway.World.{Row, Env, Gw}
use aka_smsd.Gateway.Billing.{key_of}
use aka_smsd.Gateway.Account.{Account, account_of, Entry, post, post_all, AreAllowed}

pub post_all-append :
    (es fs : List Entry) (acc : Account) → post_all (es ++ fs) acc ≡ post_all fs (post_all es acc)
post_all-append [] fs acc = refl
post_all-append (e ∷ es) fs acc = post_all-append es fs (post e acc)

pub append-AreAllowed :
    (es fs : List Entry) (acc : Account)
    → AreAllowed es acc
    → AreAllowed fs (post_all es acc)
    → AreAllowed (es ++ fs) acc
append-AreAllowed [] fs acc h k = k
append-AreAllowed (e ∷ es) fs acc h k = (h.0, append-AreAllowed es fs (post e acc) h.1 k)

module _ (env : Env) (mobile usr_id : List ℕ) where
  -- This row is the one that the tables have for the user.
  abbrev pub HasRow : Gw env → Row → Type 0
  HasRow s row = env.select s.db (key_of env s mobile usr_id) ≡ some (row ∷ [])

  -- From a state with the row `row` to one in which the entries are posted.
  pub record Follows (s s' : Gw env) (row : Row) (es : List Entry) : Type 0 where
    pub row' : Row
    pub found : HasRow s' row'
    pub posted : account_of row' ≡ post_all es (account_of row)
    pub allowed : AreAllowed es (account_of row)
    pub same_code : s'.child_code ≡ s.child_code
    pub same_prices : env.select_fee s'.db ≡ env.select_fee s.db

  pub stays : (s : Gw env) (row : Row) → HasRow s row → Follows s s row []
  stays s row h = record {
    row' = row;
    found = h;
    posted = refl;
    allowed = tt;
    same_code = refl;
    same_prices = refl;
  }

  pub joined :
      (s s1 s2 : Gw env) (row : Row) (es fs : List Entry) (f : Follows s s1 row es)
      → Follows s1 s2 f.row' fs
      → Follows s s2 row (es ++ fs)
  joined s s1 s2 row es fs f g = record {
    row' = g.row';
    found = g.found;
    posted = g.posted ∙ ap (post_all fs) f.posted ∙ sym (post_all-append es fs (account_of row));
    allowed =
        append-AreAllowed es fs (account_of row) f.allowed
          (subst (AreAllowed fs) f.posted g.allowed);
    same_code = g.same_code ∙ f.same_code;
    same_prices = g.same_prices ∙ f.same_prices;
  }
