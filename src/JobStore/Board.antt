-- ===== src/JobStore/Board.antt =====
-- What token_bench/job_store.py promises to its callers, without columns and statements: a board of
-- run ids with the phase of each, and the moves that can be made on it.
use claude_code_token_saving.Base.{
  String, ◌≡◌, Bool, true, false, not, ◌&&◌, List, [], ◌∷◌, ◌++◌, any, keep, map, ◌==◌, string_eq,
}
use claude_code_token_saving.JobStore.Table.{update_where}

pub data Phase : Type 0 where
  waiting active done stopped : Phase

abbrev pub is_active : Phase → Bool
is_active active = true
is_active _ = false

abbrev pub is_stopped : Phase → Bool
is_stopped stopped = true
is_stopped _ = false

abbrev pub Entry : Type 0
Entry = String × Phase

abbrev pub Board : Type 0
Board = List Entry

abbrev pub enter : String → Entry
enter id = (id, waiting)

-- No id is on the board, and none stands twice.
abbrev pub are_new : List String → Board → Bool
are_new [] board = true
are_new (id ∷ ids) board =
    not (any (λ (e : Entry). e.0 == id) board)
    && not (any (λ other. other == id) ids)
    && are_new ids board

-- The first that waits becomes active.
abbrev pub start_first : Board → Board
start_first [] = []
start_first ((id, waiting) ∷ board) = (id, active) ∷ board
start_first ((id, active) ∷ board) = (id, active) ∷ start_first board
start_first ((id, done) ∷ board) = (id, done) ∷ start_first board
start_first ((id, stopped) ∷ board) = (id, stopped) ∷ start_first board

-- The entry of one id gets a phase, if its phase passes.
abbrev pub put : String → (Phase → Bool) → Phase → Board → Board
put id test phase =
    update_where (λ (e : Entry). e.0 == id && test e.1) (λ (e : Entry). (e.0, phase))

abbrev pub take_off : String → Board → Board
take_off id board = keep (λ (e : Entry). not (e.0 == id && not (is_active e.1))) board

abbrev pub give_back_all : Board → Board
give_back_all = update_where (λ (e : Entry). is_active e.1) (λ (e : Entry). (e.0, waiting))

-- At the end of an active run.
pub data IsEnd : Phase → Type 0 where
  at_done : IsEnd done
  at_stopped : IsEnd stopped

pub data Move : Board → Board → Type 0 where
  idle : (b : Board) → Move b b
  submit : (b : Board) (ids : List String) → are_new ids b ≡ true → Move b (b ++ map enter ids)
  begin : (b : Board) → Move b (start_first b)
  end_run : (b : Board) (id : String) (p : Phase) → IsEnd p → Move b (put id is_active p b)
  again : (b : Board) (id : String) → Move b (put id is_stopped waiting b)
  give_back : (b : Board) (id : String) → Move b (put id is_active waiting b)
  drop : (b : Board) (id : String) → Move b (take_off id b)
  recover : (b : Board) → Move b (give_back_all b)

pub data Moves (b : Board) : Board → Type 0 where
  here : Moves b b
  next : {c d : Board} → Moves b c → Move c d → Moves b d
