-- ===== src/SignatureCache/Examples.antt =====
-- The theorems on the signatures at concrete stores.
use antigravity_server.SignatureCache.{
  cache_content_signature, cache_session_signature, empty_cache, get_content_signature,
  get_session_signature, live,
}
use antigravity_server.SignatureCache.Stores.{
  Call, get_session_signature-run, keep_longer, live-cache_session_signature, longest, run,
}
use antigravity_server.SignatureCache.Database.{get_content_signature-cache}
use antigravity_server.Prelude.Map.{lookup, text_key}
use antigravity_server.Prelude.Text.{Text, Text-discrete, text, len}
use antigravity_server.Prelude.{◌≡◌, refl, arith, none, some, List, [], ◌∷◌, replicate}

abbrev a : Text
a = replicate 60 97

abbrev b : Text
b = replicate 70 98

abbrev s : Text
s = text "sid-1"

abbrev stores : List Call
stores =
    record { session_id = s; signature = a; time = 10 }
    ∷ record { session_id = s; signature = b; time = 20 }
    ∷ record { session_id = text "sid-2"; signature = a; time = 20 }
    ∷ record { session_id = s; signature = a; time = 30 }
    ∷ []

longest_stored : longest s none stores ≡ some b
unfolding longest len Text-discrete
longest_stored = refl

get_session_signature-run_example :
    get_session_signature (run empty_cache stores) s 40 ≡ longest s none stores
unfolding live lookup empty_cache
get_session_signature-run_example =
    get_session_signature-run empty_cache s 5 40 stores tt refl (omega arith) (omega arith)

live-cache_session_signature_example :
    live 10 (cache_session_signature empty_cache s a 10).0.session_signatures
    ≡ keep_longer 10 (live 10 empty_cache.session_signatures) s a
unfolding empty_cache
live-cache_session_signature_example = live-cache_session_signature empty_cache s a 10 tt

abbrev content : Text
content = text "a thought of some length"

get_content_signature-cache_example :
    get_content_signature
      (λ t. t)
      (cache_content_signature (λ t. t) empty_cache content a (text "claude") 100).0
      content
      200
    ≡ some (a, text "claude")
unfolding empty_cache len
get_content_signature-cache_example =
    get_content_signature-cache (λ t. t) empty_cache content a (text "claude") 100 200 tt
      (omega arith) (omega arith) (omega arith) (omega arith)
