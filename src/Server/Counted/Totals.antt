-- ===== src/Server/Counted/Totals.antt =====
-- The metrics of a whole session, against its replies.
use gpumemd.Base.{
  ℕ, suc, ◌<◌, ◌≡◌, refl, sym, ap, ◌∙◌, subst, true, false, not, Bool, some, List, [], ◌∷◌, ◌++◌,
  append-nil, Text, All, all_of, arith, length, add64, add64-lt, word, if◌then◌else◌,
}
use gpumemd.Metrics.{Metrics}
use gpumemd.Server.{Platform}
use gpumemd.Server.Lines.{cut, reading, Event, process_lines, process_input}
use gpumemd.Server.Framing.{
  is_input, bytes_of, IsLine, unlines, session-process_input, process_input-unlines,
}
use gpumemd.Server.Session.{
  Connection, answer, tell, too_large_reply, unterminated_reply, client_session,
}
use gpumemd.Server.Counted.{Tally, Shows, is_success, counted, after, IsAlone}
use gpumemd.Server.Counted.Replies.{after_all, shown, Done, answers-Done, join, IsReading, Answers}

-- The number of texts that pass a test.
abbrev pub count_if : (Text → Bool) → List Text → ℕ
count_if test [] = 0
count_if test (text ∷ texts) = if test text then suc (count_if test texts) else count_if test texts

counted-add64 :
    (test : Bool) (n k : ℕ) → add64 (counted test n) k ≡ add64 n (if test then suc k else k)
unfolding add64
counted-add64 true n k = omega arith
counted-add64 false n k = refl

counted-lt : (test : Bool) (n : ℕ) → n < word → counted test n < word
counted-lt true n h = add64-lt n 1
counted-lt false n h = h

add64_zero : (n : ℕ) → n < word → n ≡ add64 n 0
unfolding add64
add64_zero n h = omega arith

after_all-requests :
    (replies : List Text) (tally : Tally)
    → tally.requests < word
    → (after_all replies tally).requests ≡ add64 tally.requests (length replies)
after_all-requests [] tally h = add64_zero tally.requests h
after_all-requests (reply ∷ replies) tally h =
    after_all-requests replies (after reply tally) (add64-lt tally.requests 1)
    ∙ counted-add64 true tally.requests (length replies)

after_all-successes :
    (replies : List Text) (tally : Tally)
    → tally.successes < word
    → (after_all replies tally).successes ≡ add64 tally.successes (count_if is_success replies)
after_all-successes [] tally h = add64_zero tally.successes h
after_all-successes (reply ∷ replies) tally h =
    after_all-successes replies (after reply tally)
      (counted-lt (is_success reply) tally.successes h)
    ∙ counted-add64 (is_success reply) tally.successes (count_if is_success replies)

after_all-failures :
    (replies : List Text) (tally : Tally)
    → tally.failures < word
    → (after_all replies tally).failures
      ≡ add64 tally.failures (count_if (λ reply. not (is_success reply)) replies)
after_all-failures [] tally h = add64_zero tally.failures h
after_all-failures (reply ∷ replies) tally h =
    after_all-failures replies (after reply tally)
      (counted-lt (not (is_success reply)) tally.failures h)
    ∙ counted-add64 (not (is_success reply)) tally.failures
        (count_if (λ reply. not (is_success reply)) replies)

-- A session that has been sent whole lines within the limit, cut into buffers in any way, and that still
-- reads afterwards has answered each line once and in its order, each in the state that the one before
-- and the other threads left, and has sent all these replies in full, one behind the other. Its metrics
-- count each line once: `requests` has grown by the number of the lines, `successes` by the number of the
-- replies that start with `OK` and `failures` by that of the others (as 64-bit counters), if the metrics
-- are enabled and no other thread counts meanwhile.
pub client_session-counts :
    {B F : Type 0} (platform : Platform B F) (events : List Event) (lines : List Text)
    (c c' : Connection B) (left : Text) (m : Metrics)
    → all_of is_input events ≡ true
    → All IsLine lines
    → bytes_of events ≡ unlines lines
    → All IsAlone c.occasions
    → c.daemon.metrics ≡ some m
    → m.requests < word
    → m.successes < word
    → m.failures < word
    → client_session platform events c ≡ reading c' left
    → (replies : List Text) × (length replies ≡ length lines)
      × (c'.output ≡ c.output ++ join replies)
      × Answers platform lines c.occasions c.daemon replies c'.occasions c'.daemon
      × (m' : Metrics) × (c'.daemon.metrics ≡ some m')
      × (m'.requests ≡ add64 m.requests (length lines))
      × (m'.successes ≡ add64 m.successes (count_if is_success replies))
      × (m'.failures ≡ add64 m.failures (count_if (λ reply. not (is_success reply)) replies))
unfolding client_session process_input process_lines cut
client_session-counts {B} platform events lines c c' left m input fits bytes alone start r s f end =
    let tally : Tally = record {
      requests = m.requests;
      successes = m.successes;
      failures = m.failures;
    } in
    let same =
      session-process_input (answer platform) (tell too_large_reply) (tell unterminated_reply)
        events c input
      ∙ ap
          (λ t.
            process_input (answer platform) (tell too_large_reply) (tell unterminated_reply) t c)
          (bytes ∙ sym (append-nil (unlines lines)))
      ∙ process_input-unlines (answer platform) (tell too_large_reply) (tell unterminated_reply)
          lines [] c fits in
    let (replies, size, joined, answered, shows) =
      subst (IsReading (Done platform tally c lines)) (sym same ∙ end) (
        answers-Done platform lines tally c
          (subst (Shows tally) (sym start) (refl, refl, refl), alone)) in
    let (m', now, requests, successes, failures) = shown _ c'.daemon.metrics shows in
    (
      replies,
      size,
      joined,
      answered,
      m',
      now,
      requests ∙ after_all-requests replies tally r ∙ ap (λ n. add64 m.requests n) size,
      successes ∙ after_all-successes replies tally s,
      failures ∙ after_all-failures replies tally f,
    )
