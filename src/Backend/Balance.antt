-- ===== src/Backend/Balance.antt =====
-- Calls that give back what they take of a collaborator: `live` counts what is alive in a world.
use kaufbot.Prelude.{ℕ, ◌≡◌, ℤ, Call}
use kaufbot.CText.{Text}
use kaufbot.Backend.{FileRecord, DbBackend}

-- A call leaves as many of them alive as it finds.
abbrev pub Balanced : {W A : Type 0} → (W → ℕ) → Call W A → Type 0
Balanced {W} live m = (w : W) → live (m w).1 ≡ live w

-- Every call of a database leaves as many of them alive as it finds.
abbrev pub AllBalanced : {W : Type 0} → (W → ℕ) → DbBackend W → Type 0
AllBalanced live db =
    ((hash : Text) → Balanced live (db.find_by_hash hash))
    × ((id : ℤ) → Balanced live (db.find_by_id id))
    × ((rec : FileRecord) → Balanced live (db.insert rec))
    × ((id : ℤ) (name : Text) → Balanced live (db.mark_ocr_done id name))
    × ((id : ℤ) (json : Text) → Balanced live (db.mark_parsing_done id json))
    × ((id : ℤ) → Balanced live (db.get_parsed_receipt id))
    × Balanced live db.list
    × Balanced live db.get_prompts
    × ((id : ℤ) (content : Text) → Balanced live (db.update_prompt id content))
    × ((id : ℤ) → Balanced live (db.delete_file id))
