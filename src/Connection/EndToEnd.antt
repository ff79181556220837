-- ===== src/Connection/EndToEnd.antt =====
-- One direction of a stream from the writer of one connection to the application behind the reader of
-- the other. The transport is taken to keep the order of the frames.
use muxtls.Base.{ℕ, ◌≡◌, ◌∙◌, refl, ap, List, [], ◌∷◌, ◌++◌}
use muxtls.Connection.Permits.{Semaphores}
use muxtls.Connection.State.{Writer}
use muxtls.Connection.Writer.Delivery.{Item, byte, end, queued}
use muxtls.Connection.Writer.Delivery.Run.{History, Run, Run-IsDelivered}
use muxtls.Connection.Receive.{Receiving}
use muxtls.Connection.Receive.Accept.{buffered}
use muxtls.Connection.Receive.Order.{Trace, IsOrdered, Trace-IsOrdered}

-- The bytes, without the end.
abbrev pub data_of : List Item → List ℕ
data_of [] = []
data_of (byte x ∷ xs) = x ∷ data_of xs
data_of (end ∷ xs) = data_of xs

data_of-append : (xs ys : List Item) → data_of (xs ++ ys) ≡ data_of xs ++ data_of ys
data_of-append [] ys = refl
data_of-append (byte x ∷ xs) ys = ap (◌∷◌ x) (data_of-append xs ys)
data_of-append (end ∷ xs) ys = data_of-append xs ys

-- Where one side's writer has made any run from empty queues, and the other side's reader, starting with
-- an empty stream in balance, has accepted the bytes that the frames carried of the stream, the bytes
-- accepted from the writing application are those that the reading application got, then those that
-- the receiver buffers, then those that the writer has queued.
pub written-delivered :
    (S : Semaphores) (start : Receiving S) (others id : ℕ) {written sent : History} {w : Writer}
    {ys : List ℕ} {out other : ℕ} {r : Receiving S}
    → Run written sent w
    → IsOrdered S start others [] [] 0 others start
    → Trace S start others (data_of (sent id)) ys out other r
    → data_of (written id) ≡ ys ++ buffered S r ++ data_of (queued id w.queues.by_stream)
written-delivered S start others id {sent} {w} {ys} {r} run s t =
    ap data_of ((Run-IsDelivered run).order id)
    ∙ data_of-append (sent id) (queued id w.queues.by_stream)
    ∙ ap (λ xs. xs ++ data_of (queued id w.queues.by_stream))
        (Trace-IsOrdered S start others s t).bytes
