-- ===== src/Examples/Login.antt =====
-- Attempts to log in to one account.
use metafusion_auth.Prelude.{ℕ, String, List, [], ◌∷◌, ◌≡◌, refl, if◌then◌else◌, any}
use metafusion_auth.Login.Delay.{login_guard_delay, delay_table, login_guard_delay-eq-table, second}
use metafusion_auth.Login.Table.{Key, Bucket, account, ip}
use metafusion_auth.Login.Guard.{Attempt, invalid_credentials, works, check_buckets, block, admit}
use metafusion_auth.Login.Verdict.{check_buckets-eq, longest_retry, most_failures, greater}
use metafusion_auth.Login.Spent.{is_over}
use metafusion_auth.Login.Budget.{guesses}

abbrev id_text : String → String
id_text s = s

abbrev guess_at : ℕ → String → Attempt
guess_at now address = record {
  now = now;
  username = "Ada ";
  email = "";
  address = address;
  outcome = invalid_credentials;
  fault = works;
}

abbrev ada_key : Key
ada_key = record { dimension = account; hash = "account\0Ada" }

login_guard_delay-eq-table_example : login_guard_delay 64 ≡ delay_table 64
login_guard_delay-eq-table_example = login_guard_delay-eq-table 64

abbrev buckets : List Bucket
buckets =
    record { dimension = account; failures = 5; retry_after = 30000000000 }
    ∷ record { dimension = ip; failures = 7; retry_after = 60000000000 }
    ∷ []

check_buckets-eq_example : check_buckets buckets ≡ (
    if any is_over buckets
    then block (greater second (longest_retry buckets))
    else admit (delay_table (most_failures buckets)))
check_buckets-eq_example = check_buckets-eq buckets

-- Six attempts from six addresses; the sixth is blocked.
abbrev attempts : List Attempt
attempts =
    guess_at 10 "10.0.0.1"
    ∷ guess_at 20 "10.0.0.2"
    ∷ guess_at 30 "10.0.0.3"
    ∷ guess_at 40 "10.0.0.4"
    ∷ guess_at 50 "10.0.0.5"
    ∷ guess_at 60 "10.0.0.6"
    ∷ []

five_guesses : guesses id_text id_text ada_key attempts [] ≡ 5
unfolding guesses metafusion_auth.Login.Guard.login metafusion_auth.Login.Table.insert_key
    metafusion_auth.Text.trim
five_guesses = refl
