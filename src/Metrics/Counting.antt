-- ===== src/Metrics/Counting.antt =====
-- pkg/observability/metrics/metrics.go: what the middleware records of a response.
use caddy_fs_gcs.Base.{
  ℕ, ◌+◌, ◌<◌, ◌^◌, ◌≡◌, refl, ap, ◌∙◌, Bool, true, false, not, ◌&&◌, List, [], ◌∷◌, ◌==◌, leb,
  arith, pos, +ℤ-pos,
}
use caddy_fs_gcs.Metrics.{http_request}
use caddy_fs_gcs.Metrics.Responses.{
  ResponseWriter, WriterCall, header, bytes, read_from, flushes, write_header, write,
  writer_read_from, flush, call_writer, call_all, Request, final_status, serve_http,
}

-- How many bytes the calls write.
unfoldable pub total : List WriterCall → ℕ
total [] = 0
total (header code ∷ calls) = total calls
total (bytes len ∷ calls) = len + total calls
total (read_from n ∷ calls) = n + total calls
total (flushes flusher ∷ calls) = total calls

-- No status after the first call.
unfoldable pub only_body : List WriterCall → Bool
only_body [] = true
only_body (header code ∷ calls) = false
only_body (bytes len ∷ calls) = only_body calls
only_body (read_from n ∷ calls) = only_body calls
only_body (flushes flusher ∷ calls) = only_body calls

-- At most one status, which is final and comes first; a source that is read has something in it, and
-- a flush is not the first call.
unfoldable pub well_behaved : List WriterCall → Bool
well_behaved [] = true
well_behaved (header code ∷ calls) = leb 200 code && only_body calls
well_behaved (bytes len ∷ calls) = only_body calls
well_behaved (read_from n ∷ calls) = not (n == 0) && only_body calls
well_behaved (flushes flusher ∷ calls) = false

flush-size : (flusher : Bool) (w : ResponseWriter) → (flush flusher w).size ≡ w.size
unfolding flush
flush-size true w = refl
flush-size false w = refl

-- A flush after the status changes nothing.
flush-sent : (flusher : Bool) (w : ResponseWriter) → 0 < w.client.sent → flush flusher w ≡ w
unfolding flush
flush-sent true w h = let no : (w.client.sent == 0) ≡ false = ground (arith, h) in rw no refl
flush-sent false w h = refl

call_all-size :
    (calls : List WriterCall) (w : ResponseWriter) (s : ℕ)
    → w.size ≡ pos s
    → s + total calls < 2 ^ 63
    → (call_all calls w).size ≡ pos (s + total calls)
unfolding call_all call_writer write_header write writer_read_from total
call_all-size [] w s e h = e ∙ ap pos (omega arith)
call_all-size (header code ∷ calls) w s e h = call_all-size calls _ s e h
call_all-size (bytes len ∷ calls) w s e h =
    call_all-size calls _ (s + len) (rw e (+ℤ-pos s len (omega arith))) (omega arith)
    ∙ ap pos (omega arith)
call_all-size (read_from n ∷ calls) w s e h =
    call_all-size calls _ (s + n) (rw e (+ℤ-pos s n (omega arith))) (omega arith)
    ∙ ap pos (omega arith)
call_all-size (flushes flusher ∷ calls) w s e h =
    call_all-size calls (flush flusher w) s (flush-size flusher w ∙ e) h

-- A status that has been sent stays, here and at the client.
call_all-sent :
    (calls : List WriterCall) (w : ResponseWriter) (code : ℕ)
    → 0 < code
    → w.status_code ≡ code
    → w.client.sent ≡ code
    → only_body calls ≡ true
    → ((call_all calls w).status_code ≡ code) × ((call_all calls w).client.sent ≡ code)
unfolding call_all call_writer write writer_read_from only_body
call_all-sent [] w code h s c o = (s, c)
call_all-sent (header code' ∷ calls) w code h s c o = absurd (ground (arith, o))
call_all-sent (bytes len ∷ calls) w code h s c o =
    call_all-sent calls _ code h (ground (arith, s, h)) (ground (arith, c, h)) o
call_all-sent (read_from n ∷ calls) w code h s c o =
    call_all-sent calls _ code h (ground (arith, s, h)) (ground (arith, c, h)) o
call_all-sent (flushes flusher ∷ calls) w code h s c o =
    let same = flush-sent flusher w (omega (arith, h, c)) in
    call_all-sent calls (flush flusher w) code h (ap (λ u. u.status_code) same ∙ s)
      (ap (λ u. u.client.sent) same ∙ c) o

abbrev fresh : ResponseWriter
fresh = record { client = record { sent = 0 }; status_code = 0; size = pos 0 }

-- The status that the client is sent: the one that is set, or 200 before a body; 0 is none.
unfoldable pub sent_status : List WriterCall → ℕ
sent_status [] = 0
sent_status (header code ∷ calls) = code
sent_status (call ∷ calls) = 200

-- The status to be recorded of a handler that fails or not.
unfoldable pub recorded_status : Bool → List WriterCall → ℕ
recorded_status true [] = 500
recorded_status false [] = 200
recorded_status failed (call ∷ calls) = sent_status (call ∷ calls)

call_all-sent_status :
    (calls : List WriterCall)
    → well_behaved calls ≡ true
    → ((call_all calls fresh).status_code ≡ sent_status calls)
      × ((call_all calls fresh).client.sent ≡ sent_status calls)
unfolding call_all call_writer write_header write writer_read_from well_behaved sent_status
call_all-sent_status [] b = (refl, refl)
call_all-sent_status (header code ∷ calls) b =
    call_all-sent calls (write_header code fresh) code (ground (arith, b)) refl (ground (arith, b))
      (ground (arith, b))
call_all-sent_status (bytes len ∷ calls) b =
    call_all-sent calls (write len fresh) 200 (omega arith) refl refl b
call_all-sent_status (read_from n ∷ calls) b =
    call_all-sent calls (writer_read_from n fresh) 200 (omega arith) refl (ground (arith, b))
      (ground (arith, b))
call_all-sent_status (flushes flusher ∷ calls) b = absurd (ground (arith, b))

final_status-recorded :
    (failed : Bool) (calls : List WriterCall)
    → well_behaved calls ≡ true
    → final_status failed (sent_status calls) ≡ recorded_status failed calls
unfolding well_behaved sent_status recorded_status
final_status-recorded true [] b = refl
final_status-recorded false [] b = refl
final_status-recorded failed (header code ∷ calls) b = ground (arith, b)
final_status-recorded failed (bytes len ∷ calls) b = refl
final_status-recorded failed (read_from n ∷ calls) b = refl
final_status-recorded failed (flushes flusher ∷ calls) b = absurd (ground (arith, b))

-- Around a handler that writes at most one status, a final one and first, whose first call is no flush
-- and which reads from no empty source first, and that writes less than 2^63 bytes, the client is sent
-- the status that the handler has set, 200 if it only writes a body, and none if it writes nothing; the
-- middleware records that status, or where there is none, 500 for an error and 200 otherwise, and the
-- number of bytes that the handler has written.
pub serve_http-records :
    (r : Request) (calls : List WriterCall) (failed : Bool)
    → well_behaved calls ≡ true
    → total calls < 2 ^ 63
    → serve_http r calls failed ≡ (
      record { sent = sent_status calls },
      http_request r.method r.path (recorded_status failed calls) r.duration (pos (total calls)),
    )
unfolding serve_http
serve_http-records r calls failed b h =
    let size : (call_all calls fresh).size ≡ pos (total calls) =
      call_all-size calls fresh 0 refl (omega arith) ∙ ap pos (omega arith) in
    let (status, sent) = call_all-sent_status calls b in
    let client : (call_all calls fresh).client ≡ record { sent = sent_status calls } =
      ap (λ n. record { sent = n }) sent in
    rw (client, status, size, final_status-recorded failed calls b) refl
