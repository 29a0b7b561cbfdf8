-- ===== src/Policy.antt =====
-- The security policies: their table (lib/secure_gateway.c) and their rules
-- (lib/security_policies.c). A rule is called with its policy, of which there is only the id.
pub mod Rules
use secure_mavlink_gateway.Prelude.{
  ℕ, ◌+◌, ◌%◌, ◌^◌, Bool, true, Option, some, List, get_elem?, set, ltb,
}
use secure_mavlink_gateway.Outcome.{Outcome, done, assert, or_out_of_bounds, ◌>>=◌, ◌>>◌}
use secure_mavlink_gateway.Platform.{Platform}
use secure_mavlink_gateway.Message.{Message}

abbrev pub max_policies : ℕ
max_policies = 16

module _ ⦃platform : Platform⦄ where
  -- `match_t`, `check_t`: whether the message is secure, and what `*attribute` holds then.
  abbrev pub Match : Type 0
  Match = ℕ → Message → Bool

  abbrev pub Check : Type 0
  Check = ℕ → Message → ℕ → Bool × ℕ

  pub record Policy : Type 0 where
    pub policy_id : ℕ
    pub match : Option Match
    pub check : Option Check

  pub record PolicyMgmt : Type 0 where
    pub policies : List Policy
    pub count : ℕ

  unfoldable pub policy_register : PolicyMgmt → ℕ → Option Match → Option Check → Outcome PolicyMgmt
  policy_register mgmt policy_id match check = do
    assert (ltb mgmt.count max_policies)
    _ ← or_out_of_bounds (get_elem? mgmt.policies mgmt.count)
    done (record mgmt {
      policies =
          set mgmt.policies mgmt.count
            (record { policy_id = policy_id; match = match; check = check });
      count = (mgmt.count + 1) % 2 ^ 64;
    })
