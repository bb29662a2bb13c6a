-- ===== src/Definitions/Comments.antt =====
-- frontend/seer/src/lib/definitions.ts: comments, after validation.
use seer.Common.{String, Option, Bool}
use seer.Common.Int.{ℤ}
use seer.Definitions.Accounts.{UserProfile}

pub record Comment (D : Type 0) : Type 0 where
  pub id : ℤ
  pub user : UserProfile D
  pub market_id : String
  pub nb_replies : ℤ
  pub nb_likes : ℤ
  pub is_liked : Bool
  pub is_reported : Bool
  pub content : String
  pub created_at : ℤ
  pub parent_id : Option ℤ
  pub depth : ℤ

pub record PostComment : Type 0 where
  pub market_id : String
  pub content : String
  pub parent_id : Option ℤ

pub record InteractComment : Type 0 where
  pub comment_id : ℤ
