-- ===== src/Client/Paging.antt =====
-- A client that pulls page after page.
use ce_pubsub.Prelude.{
  ℕ, zero, suc, ◌+◌, ◌-◌, ◌≤◌, ◌<◌, ◌≡◌, refl, sym, ap, ◌∙◌, inl, inr, false, none, List, [], ◌∷◌,
  ◌++◌, arith, ltb, ltb→lt, if◌then◌else◌, length, take, drop, length-drop, take-append-drop, max,
  Bool-cases,
}
use ce_pubsub.Message.{Cursor, Message}
use ce_pubsub.Log.{TopicLog, since}
use ce_pubsub.Log.Numbering.{Numbered}
use ce_pubsub.Log.History.{drop-drop}
use ce_pubsub.Log.Invariant.{IsWellFormed, since_lem}
use ce_pubsub.Client.{page, page_limit, last_cursor}

-- The messages of successive pages, each from where the one before ended.
pub pages : ℕ → TopicLog → Cursor → ℕ → List Message
pages zero l from limit = []
pages (suc n) l from limit =
    let r = page l none false from limit in
    let rest = pages n l r.next limit in if r.truncated then r.messages ++ rest else r.messages

page_limit-ge : (limit : ℕ) → 1 ≤ page_limit limit
unfolding page_limit
page_limit-ge limit = omega arith

last_cursor-take :
    (k n d : ℕ) (ms : List Message)
    → Numbered n ms
    → 1 ≤ k
    → k ≤ length ms
    → last_cursor d (take k ms) ≡ n + k
last_cursor-take zero n d ms h pos le = absurd (omega arith)
last_cursor-take (suc k) n d [] h pos le = absurd (omega arith)
last_cursor-take (suc zero) n d (m ∷ ms) h pos le = h.0 ∙ omega arith
last_cursor-take (suc (suc k)) n d (m ∷ ms) h pos le =
    last_cursor-take (suc k) (suc n) m.cursor ms h.1 (omega arith) (omega arith) ∙ omega arith

-- A page that is cut off ends where the rest of the log begins.
since-next :
    {l : TopicLog} (from limit : ℕ)
    → IsWellFormed l
    → page_limit limit < length (since l from)
    → (take (page_limit limit) (since l from)
          ++ since l (last_cursor from (take (page_limit limit) (since l from)))
        ≡ since l from)
      × (length (since l (last_cursor from (take (page_limit limit) (since l from))))
          < length (since l from))
since-next {l} from limit v more =
    let k = page_limit limit in
    let pos = page_limit-ge limit in
    let found = since l from in
    let (cut, len, numbered) = since_lem from v in
    let inside : max l.floor from ≤ l.floor + length l.messages = omega (arith, len) in
    let next =
      last_cursor-take k (max l.floor from) from found (numbered inside) pos (omega arith) in
    let (cut', _, _) = since_lem (last_cursor from (take k found)) v in
    let i : last_cursor from (take k found) - l.floor ≡ (from - l.floor) + k =
      omega (arith, next) in
    let rest : since l (last_cursor from (take k found)) ≡ drop k found =
      cut'
      ∙ ap (λ j. drop j l.messages) i
      ∙ sym (drop-drop k (from - l.floor) l.messages)
      ∙ ap (drop k) (sym cut) in
    (rw rest (take-append-drop k found), rw rest (omega (arith, length-drop k found)))

-- On a well-formed log that does not change meanwhile, a client that pulls page after page, with
-- whatever limit and each from the cursor that the last one named, until a page is not truncated,
-- gets every retained message above its first cursor, once and in order; one round more than
-- there are such messages is enough.
pub pages_lem :
    (n : ℕ) {l : TopicLog} (from limit : ℕ)
    → IsWellFormed l
    → length (since l from) < n
    → pages n l from limit ≡ since l from
unfolding pages page
pages_lem zero {l} from limit v fuel = absurd (omega arith)
pages_lem (suc n) {l} from limit v fuel =
    elim (Bool-cases (ltb (page_limit limit) (length (since l from)))) [
      | inl more ↦
          let (whole, less) = since-next from limit v (ltb→lt _ _ more) in
          let next = last_cursor from (take (page_limit limit) (since l from)) in
          rw more (
            ap (λ ms. take (page_limit limit) (since l from) ++ ms)
              (pages_lem n next limit v (omega arith))
            ∙ whole)
      | inr all ↦ rw all refl
    ]
