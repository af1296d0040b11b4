-- ===== src/Token/Tests.antt =====
-- Tokens on concrete tables; the hash is the text itself.
use airgapp_rpi.Base.{◌+◌, ◌≤◌, ◌<◌, ◌≡◌, ◌≢◌, refl, true, none, some, List, [], ◌∷◌}
use airgapp_rpi.Base.Text.{Text, codes, str_eq, trim_space, trim_left, is_space}
use airgapp_rpi.Token.{
  Row, Table, new_table, issued, insert, issue, issue_ephemeral, prune, has_id, revoke, validate,
}
use airgapp_rpi.Token.Fates.{Op, issue_op, ephemeral_op, revoke_op, run}
use airgapp_rpi.Token.Ended.{revoked_never_validates}
use airgapp_rpi.Token.Claimed.{claimed_forever}
use airgapp_rpi.Token.Window.{ephemeral_window}

abbrev same_text : Text → Text
same_text plain = plain

abbrev earlier : List Op
earlier = issue_op (codes "ana") (codes "k1") 5 ∷ []

abbrev first_row : Row
first_row = record {
  id = 1;
  label = codes "ana";
  token_hash = codes "k1";
  token_plain = codes "k1";
  created_at = 5;
  last_used_at = none;
  revoked_at = none;
  expires_at = none;
}

abbrev second_row : Row
second_row = record {
  id = 2;
  label = codes "bob";
  token_hash = codes "k2";
  token_plain = codes "k2";
  created_at = 6;
  last_used_at = none;
  revoked_at = none;
  expires_at = none;
}

abbrev guest_row : Row
guest_row = record {
  id = 1;
  label = codes "guest";
  token_hash = codes "q";
  token_plain = codes "q";
  created_at = 5;
  last_used_at = none;
  revoked_at = none;
  expires_at = some 65;
}

issued_first : has_id 1 (run same_text new_table earlier).rows ≡ true
unfolding issue insert str_eq trim_space trim_left is_space
issued_first = refl

-- After the token 1 is gone, the token 2 is issued and validated.
second_validates-revoked :
    (validate same_text
      (run same_text
        (revoke (run same_text new_table earlier) 1 8).1
        (issue_op (codes "bob") (codes "k2") 6 ∷ []))
      (codes "k2")
      9).0
    ≡ some second_row
unfolding issue insert str_eq trim_space trim_left is_space revoke validate
second_validates-revoked = refl

revoked_never_validates_example : second_row.id ≢ 1
revoked_never_validates_example =
    revoked_never_validates same_text earlier (issue_op (codes "bob") (codes "k2") 6 ∷ []) 1 8
      issued_first (codes "k2") 9 second_row second_validates-revoked

abbrev guests : Table
guests = record { rows = guest_row ∷ []; last_id = 1 }

guest_validates :
    (validate same_text guests (codes "q") 60).0 ≡ some (record guest_row { expires_at = none })
unfolding str_eq trim_space trim_left is_space validate
guest_validates = refl

-- Used at 60, five seconds before the end of its window, and again much later.
claimed_forever_example :
    (s : Row) × ((validate same_text
        (run same_text
          (validate same_text guests (codes "q") 60).1
          (revoke_op 2 70 ∷ ephemeral_op (codes "x") 5 (codes "r") 80 ∷ []))
        (codes "q")
        9000).0
      ≡ some s)
claimed_forever_example =
    claimed_forever same_text guests (codes "q") 60 (record guest_row { expires_at = none })
      guest_validates (revoke_op 2 70 ∷ ephemeral_op (codes "x") 5 (codes "r") 80 ∷ [])
      (refl, (refl, tt)) 9000

issues-guest :
    issue_ephemeral same_text new_table (codes "guest") 60 (codes "q") 5
    ≡ issued 1 (codes "q") guests
unfolding issue_ephemeral insert prune str_eq trim_space trim_left is_space
issues-guest = refl

trimmed : trim_space (codes "q") ≡ codes "q"
unfolding trim_space trim_left is_space
trimmed = refl

ephemeral_window_example :
    (64 < 5 + 60 → (r : Row) × ((validate same_text guests (codes "q") 64).0 ≡ some r) × (r.id ≡ 1))
    × (5 + 60 ≤ 64 → (validate same_text guests (codes "q") 64).0 ≡ none)
ephemeral_window_example =
    ephemeral_window same_text new_table guests (codes "guest") (codes "q") (codes "q") 60 5 1 64
      issues-guest trimmed refl
