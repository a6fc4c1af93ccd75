-- ===== src/Examples/Streams.antt =====
-- Streams of a channel of numbers.
use samizdat.Prelude.{ℕ, ◌≡◌, true, List, [], ◌∷◌}
use samizdat.Channel.{KeyedChannel, new, send, recv_stream, drop_stream}
use samizdat.Channel.Delivery.{IsValid, send_all, recv_stream-send_all, drop_stream-newer}

abbrev quiet : KeyedChannel ℕ
quiet = new

quiet-IsValid : IsValid quiet
quiet-IsValid = record { made = λ k s e. absurd (cc (e)); apart = λ j k s e f. absurd (cc (e)) }

abbrev sends : List (ℕ × ℕ)
sends = (4, 10) ∷ (3, 11) ∷ (4, 12) ∷ []

recv_stream-send_all_example :
    let (c, s) = recv_stream quiet 4 in (send_all c sends).queues s.recv ≡ 10 ∷ 12 ∷ []
unfolding recv_stream
recv_stream-send_all_example = recv_stream-send_all quiet 4 sends quiet-IsValid

drop_stream-newer_example :
    let (c₁, older) = recv_stream quiet 4 in
    let (c₂, newer) = recv_stream c₁ 4 in
    let c₃ = drop_stream c₂ older in (c₃.open_streams newer.recv ≡ true) × (send c₃ 4 10 ≡ c₃)
drop_stream-newer_example = drop_stream-newer quiet 4 10
