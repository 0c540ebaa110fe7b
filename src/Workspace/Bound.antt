-- ===== src/Workspace/Bound.antt =====
-- What an accepted snapshot of token_bench/workspace.py is bound to.
use claude_code_token_saving.Base.{
  String, ◌≡◌, Option, some, Result, ok, err, ◌>>=◌, Dict, string_eq,
}
use claude_code_token_saving.Conditions.{RunSpec}
use claude_code_token_saving.Conditions.Json.{Json}
use claude_code_token_saving.Conditions.RunSpecs.{run_spec_from_dict}
use claude_code_token_saving.Workspace.{
  WorkspaceError, RunDir, Content, required, run_or_bad, assets_in, sha256_tree, content_id,
  check_assets,
}

module _ (sha256 : String → String) (dumps : Json → String) (dir : RunDir) where
  -- The content is that of the files: its prompt and its fixture, its run, and its assets, each of which
  -- has the hash that stands in it.
  abbrev pub Matches : RunSpec → Content → Type 0
  Matches run c =
      (dir.prompt ≡ some c.final_prompt)
      × (c.fixture_sha256 ≡ sha256_tree sha256 dumps dir.workdir)
      × (run_or_bad (run_spec_from_dict c.execution_condition) ≡ ok run)
      × ((assets_in c.assets >>= λ list. check_assets sha256 dumps dir list) ≡ ok tt)

  -- An accepted run is that of a content that matches, and has the id that was expected.
  abbrev pub Accepted : Option String → Result WorkspaceError RunSpec → Type 0
  Accepted expected (err e) = Unit
  Accepted expected (ok run) =
      (c : Content) × Matches run c
      × ((id : String) → expected ≡ some id → id ≡ content_id sha256 dumps c)

  abbrev Parts : Dict Json → String → Json → Result WorkspaceError Content → Type 0
  Parts d prompt assets (err e) = Unit
  Parts d prompt assets (ok c) =
      (c.final_prompt ≡ prompt)
      × (c.fixture_sha256 ≡ sha256_tree sha256 dumps dir.workdir)
      × (required d "execution_condition" ≡ ok c.execution_condition)
      × (c.assets ≡ assets)
