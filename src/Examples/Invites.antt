-- ===== src/Examples/Invites.antt =====
-- An invitation for two members.
use metafusion_auth.Prelude.{
  ℕ, List, [], ◌∷◌, ◌≡◌, refl, none, some, false, true, Bool, Error, err, arith,
}
use metafusion_auth.Database.{Database, InviteRow, empty_database}
use metafusion_auth.Invites.Final.{
  InviteEvent, create, consume, run_invites, IsBounded, run_invites-IsBounded,
}
use metafusion_auth.Accounts.Bans.{Server}
use metafusion_auth.Sessions.Accounts.{RegistrationSettings, register}
use metafusion_auth.Sessions.Invited.{register-revoke_invite}
use metafusion_auth.Examples.Accounts.{manager, server}
use metafusion_auth.Examples.Tokens.{id_text, codec}

abbrev invite : (revoked : Bool) → InviteRow
invite revoked = record {
  code = "CODE1";
  created_by = "ada";
  note = "";
  max_uses = 2;
  used_count = 1;
  revoked = revoked;
  expires_at = none;
}

abbrev invited : (revoked : Bool) → Database
invited revoked = record empty_database { invites = invite revoked ∷ [] }

abbrev invite_history : List (ℕ × InviteEvent)
invite_history =
    (3, consume "CODE1" "u7")
    ∷ (4, create "CODE2" "team" 5 0 (some manager))
    ∷ (5, consume " CODE1" "u8")
    ∷ []

run_invites-IsBounded_example :
    IsBounded (run_invites id_text (invited false) invite_history).invites
run_invites-IsBounded_example =
    run_invites-IsBounded id_text (invited false) invite_history (omega arith, tt)

abbrev invite_only : RegistrationSettings id_text id_text
invite_only = record {
  registration_enabled = true;
  invite_required = true;
  registration_default_groups = [];
}

-- An instance with two accounts, and the invitations after the history.
abbrev later_server : Server
later_server = record server {
  db = record server.db { invites = (run_invites id_text (invited true) invite_history).invites };
}

register-revoke_invite_example :
    (x : Error) × (register id_text id_text id_text id_text codec later_server 9 invite_only "u9"
        "j9" "zed" "" "correct horse" " CODE1"
      ≡ (err x, later_server))
unfolding metafusion_auth.Invites.revoke_invite metafusion_auth.Access.can metafusion_auth.Text.trim
register-revoke_invite_example =
    register-revoke_invite id_text id_text id_text id_text codec (invited false) (invited true)
      "CODE1" (some manager) invite_history later_server 9 invite_only "u9" "j9" "zed" ""
      "correct horse" " CODE1" refl refl refl refl
