-- ===== src/Database/Cursors.antt =====
-- The durable resume cursors: data-service/src/postgres/chain_cursor.rs.
use ethpayserver.Base.{ℕ, Bool, Option, none, some, true, not, ◌||◌, ◌==◌, ltb, if◌then◌else◌}
use ethpayserver.Base.Dict.{Dict, get, insert, remove}
use ethpayserver.Database.Rows.{ChainCursor}
use ethpayserver.Database.Monad.{ok, M, call}
use ethpayserver.Database.Settings.{reset_watches}

unfoldable pub chain_cursors : M (Dict ChainCursor)
chain_cursors = call λ w. (ok w.cursors, w)

-- The `WHERE` of the upsert: a position at or behind the stored one, of the same epoch, is ignored.
unfoldable pub moves : ChainCursor → Option ChainCursor → Bool
moves new none = true
moves new (some old) = not (old.epoch == new.epoch) || ltb old.seq new.seq

unfoldable pub commit_row : ℕ → ChainCursor → M (Unit {0})
unfolding moves
commit_row chain_id cursor w =
    if moves cursor (get chain_id w.cursors)
    then (ok tt, record w { cursors = insert chain_id cursor w.cursors })
    else (ok tt, w)

unfoldable pub commit_chain_cursor : ℕ → ChainCursor → M (Unit {0})
unfolding commit_row
commit_chain_cursor chain_id cursor = call (commit_row chain_id cursor)

unfoldable pub delete_row : ℕ → M (Unit {0})
delete_row chain_id w = (ok tt, record w { cursors = remove chain_id w.cursors })

unfoldable pub delete_chain_cursor : ℕ → M (Unit {0})
unfolding delete_row
delete_chain_cursor chain_id = call (delete_row chain_id)

unfoldable pub reset_rows : ℕ → M (Unit {0})
unfolding reset_watches
reset_rows chain_id w = (ok tt, record w { watches = reset_watches chain_id w.watches })

unfoldable pub reset_chain_watch_notifications : ℕ → M (Unit {0})
unfolding reset_rows
reset_chain_watch_notifications chain_id = call (reset_rows chain_id)
