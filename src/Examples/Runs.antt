-- ===== src/Examples/Runs.antt =====
-- Runs of the helpers on texts and bytes, and of the functions of internal/svc on them.
use aegis_hosting_control_pa.Base.{true, some, [], ◌∷◌, ◌≡◌, refl, any, hex_encode, trim_space}
use aegis_hosting_control_pa.Htaccess.Text.{
  atoi, trim_prefix, clean_rooted, rooted, resolve, split_on, join, path_base, to_lower,
}
use aegis_hosting_control_pa.Api.Users.Names.{valid_username, reserved_account_name}
use aegis_hosting_control_pa.Sql.Bytes.{bytes, trim_bytes}
use aegis_hosting_control_pa.Sql.Literals.{quote_sql_string}

atoi_run : atoi "-12" ≡ some (true, 12)
unfolding atoi trim_prefix
atoi_run = refl

clean_rooted_run : clean_rooted "/a/./b/../../../c//d/" ≡ "/c/d"
unfolding clean_rooted rooted resolve split_on join
clean_rooted_run = refl

path_base_run : path_base "a/b//" ≡ "b"
unfolding path_base split_on
path_base_run = refl

valid_username_run : valid_username "ada_1" ≡ true
unfolding valid_username
valid_username_run = refl

reserved_account_name_run : reserved_account_name " Root " ≡ true
unfolding reserved_account_name any to_lower trim_space
reserved_account_name_run = refl

hex_encode_run : hex_encode (0x0f ∷ 0xa7 ∷ []) ≡ "0fa7"
unfolding hex_encode
hex_encode_run = refl

trim_space_run : trim_space " a b  " ≡ "a b"
unfolding trim_space
trim_space_run = refl

quote_sql_string_run : quote_sql_string true (bytes "a'\\b") ≡ bytes "'a''\\\\b'"
unfolding quote_sql_string
quote_sql_string_run = refl

trim_bytes_run : trim_bytes (bytes " a b \n") ≡ bytes "a b"
unfolding trim_bytes
trim_bytes_run = refl
