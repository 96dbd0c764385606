-- ===== src/Htaccess/Engine/Denied.antt =====
-- Denials: one .htaccess of a directory chain is enough.
use aegis_hosting_control_pa.Base.{
  String, Bool, List, [], ◌∷◌, ◌++◌, ◌||◌, if◌then◌else◌, any, ◌≡◌, refl, arith,
}
use aegis_hosting_control_pa.Htaccess.Config.{Regexps, Config, no_config}
use aegis_hosting_control_pa.Htaccess.Parse.{parse_file, merge, merge_files, parse_dir}
use aegis_hosting_control_pa.Htaccess.Expand.{Request}
use aegis_hosting_control_pa.Htaccess.Rules.{refused}
use aegis_hosting_control_pa.Htaccess.Engine.{file_deny_matches, rewrite_request, engine}

any-append :
    {A : Type 0} (p : A → Bool) (xs ys : List A) → any p (xs ++ ys) ≡ (any p xs || any p ys)
unfolding any
any-append p [] ys = refl
any-append p (x ∷ xs) ys = ground (arith, any-append p xs ys)

module _ (x : Regexps) (url_path : String) where
  -- The configuration refuses the path: a bare denial, or one in a <Files> block that matches it.
  abbrev pub denies : Config → Bool
  denies cfg = cfg.deny_all || any (file_deny_matches x url_path) cfg.file_denies

  denies-merge : (cfg sub : Config) → denies (merge cfg sub) ≡ (denies cfg || denies sub)
  unfolding merge
  denies-merge cfg sub =
      ground (arith, any-append (file_deny_matches x url_path) cfg.file_denies sub.file_denies)

  denies-merge_files :
      (cfg : Config) (files : List (List String))
      → denies (merge_files x cfg files)
        ≡ (denies cfg || any (λ lines. denies (parse_file x lines)) files)
  unfolding merge_files any
  denies-merge_files cfg [] = ground arith
  denies-merge_files cfg (lines ∷ files) =
      rw
        (
          denies-merge_files (merge cfg (parse_file x lines)) files,
          denies-merge cfg (parse_file x lines),
        )
        (ground arith)

  denies-parse_dir :
      (dir_url : String) (files : List (List String))
      → denies (parse_dir x dir_url files) ≡ any (λ lines. denies (parse_file x lines)) files
  unfolding parse_dir any
  denies-parse_dir dir_url files = denies-merge_files (record no_config { dir_url = dir_url }) files

  engine-denies :
      (r : Request) (cfg : Config) (query : String)
      → engine x r cfg url_path query
        ≡ (if denies cfg then refused 403 else rewrite_request x r cfg url_path query)
  unfolding engine
  engine-denies r cfg query = ground arith

  -- A request is refused with 403 if one file of the chain denies its path by itself, before any
  -- redirect or rewrite rule is tried; else the rules decide.
  pub engine-parse_dir :
      (r : Request) (dir_url query : String) (files : List (List String))
      → engine x r (parse_dir x dir_url files) url_path query ≡ (
          if any (λ lines. denies (parse_file x lines)) files
          then refused 403
          else rewrite_request x r (parse_dir x dir_url files) url_path query)
  engine-parse_dir r dir_url query files =
      rw (engine-denies r (parse_dir x dir_url files) query, denies-parse_dir dir_url files)
