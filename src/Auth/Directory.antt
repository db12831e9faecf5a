-- ===== src/Auth/Directory.antt =====
-- backend/internal/auth: directory.go and directory_memory.go, the seeded accounts. Trimming and
-- lowering an address is the strings package's, and a parameter.
use ottodot_trial_booking_se.Prelude.{
  List, Option, Text, [], if◌then◌else◌, insert, is_empty, lookup, lookup_or, none, some, ℤ,
}
use ottodot_trial_booking_se.Auth.Errors.{Error, err_invalid_request, err_no_such_parent}

pub record Parent : Type 0 where
  pub id : Text
  pub display_name : Text
  pub role : Text

pub record Credential : Type 0 where
  pub parent : Parent
  pub password_hash : Text

pub record Child : Type 0 where
  pub id : Text
  pub full_name : Text
  pub grade_level : ℤ  -- int16

pub record Account : Type 0 where
  pub parent : Parent
  pub children : List Child

abbrev pub no_parent : Parent
no_parent = record { id = []; display_name = []; role = [] }

abbrev pub no_credential : Credential
no_credential = record { parent = no_parent; password_hash = [] }

abbrev pub no_account : Account
no_account = record { parent = no_parent; children = [] }

pub record Directory : Type 0 where
  pub credentials_by_email : List (Text × Credential)
  pub parents_by_id : List (Text × Parent)
  pub children_by_id : List (Text × List Child)

unfoldable pub new_directory : Directory
new_directory = record { credentials_by_email = []; parents_by_id = []; children_by_id = [] }

unfoldable pub add_account :
    (Text → Text) → Directory → Text → Text → Parent → List Child → Directory
add_account normalise directory email password_hash parent children = record {
  credentials_by_email =
      insert (normalise email) (record { parent = parent; password_hash = password_hash })
        directory.credentials_by_email;
  parents_by_id = insert parent.id parent directory.parents_by_id;
  children_by_id = insert parent.id children directory.children_by_id;
}

unfoldable pub credential_by_email : (Text → Text) → Directory → Text → Credential × Option Error
credential_by_email normalise directory email =
    if is_empty (normalise email)
    then (no_credential, some err_invalid_request)
    else elim (lookup (normalise email) directory.credentials_by_email) [
      | none ↦ (no_credential, some err_no_such_parent)
      | some found ↦ (found, none)
    ]

unfoldable pub get_account : Directory → Text → Account × Option Error
get_account directory parent_id =
    if is_empty parent_id
    then (no_account, some err_invalid_request)
    else elim (lookup parent_id directory.parents_by_id) [
      | none ↦ (no_account, some err_no_such_parent)
      | some found ↦ (
        record { parent = found; children = lookup_or [] parent_id directory.children_by_id },
        none,
      )
    ]
