-- ===== src/Accounts/Users/Tests.antt =====
-- packages/api/src/repositories/user.repository.ts: calls on small databases.
use self_rss.Prelude.{◌≡◌, refl, true, none, some, [], ◌∷◌}
use self_rss.Prelude.Text.{codes}
use self_rss.AppError.{ok, fail, conflict}
use self_rss.Accounts.{Role, User, Db}
use self_rss.Accounts.Users.{
  register_user, create_with_preferences, update_for_admin, Changes, assert_admin_update_allowed,
}
use self_rss.Accounts.Users.Admins.{Governed}
use self_rss.Accounts.Users.Governed.{Step, Reachable, Reachable-Governed}

abbrev empty : Db
empty = record { users = []; sessions = []; preferences = [] }

abbrev first : User
first = record {
  id = 1;
  email = codes "a@b";
  password_hash = 11;
  role = Role.admin;
  is_active = true;
  created_at = 5;
  updated_at = 5;
}

abbrev one : Db
one = record { users = first ∷ []; sessions = []; preferences = 1 ∷ [] }

abbrev second : User
second = record first { id = 2; email = codes "c@d"; created_at = 6; updated_at = 6 }

abbrev two : Db
two = record { users = first ∷ second ∷ []; sessions = []; preferences = 1 ∷ 2 ∷ [] }

abbrev demotion : Changes
demotion = record { role = some Role.user; is_active = none }

last_test :
    assert_admin_update_allowed 2 1 demotion one
    ≡ fail (conflict (codes "The last active administrator cannot be changed"))
unfolding assert_admin_update_allowed
last_test = refl

closed_test :
    register_user 2 (codes "c@d") 11 true 6 one
    ≡ fail (self_rss.AppError.forbidden (codes "Registration is currently closed"))
unfolding register_user
closed_test = refl

abbrev demoted : Db
demoted = record two { users = record first { role = Role.user; updated_at = 7 } ∷ second ∷ [] }

first_step : Step empty one
unfolding register_user
first_step = Step.register 1 (codes "a@b") 11 true 5 (one, (first, true)) refl

second_step : Step one two
unfolding create_with_preferences
second_step = Step.create first 2 (codes "c@d") 11 Role.admin 6 (two, second) refl refl

third_step : Step two demoted
unfolding update_for_admin
third_step =
    Step.change 2 1 demotion 7 (demoted, (record first { role = Role.user; updated_at = 7 }, []))
      refl

Reachable-Governed_example : Governed demoted.users
Reachable-Governed_example = Reachable-Governed demoted (
    Reachable.next (Reachable.next (Reachable.next (Reachable.start refl) first_step) second_step)
      third_step)
