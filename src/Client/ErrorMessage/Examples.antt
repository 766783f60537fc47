-- ===== src/Client/ErrorMessage/Examples.antt =====
-- src/utilities/error.ts on concrete values.
use vip_real_time_collaborat.Base.{ℕ, zero, suc, ◌-◌, ◌≡◌, refl, false, none, some, [], ◌∷◌, arith}
use vip_real_time_collaborat.Base.Text.{text}
use vip_real_time_collaborat.Client.ErrorMessage.{
  Value, string, object, Heap, object_at, get_error_message,
}
use vip_real_time_collaborat.Client.ErrorMessage.Chains.{
  IsRanked, ChainEnds, following, own_message, get_error_message-ChainEnds,
}

-- What apiFetch rejects with: its data has an error, which has a message.
abbrev rejected : Heap
rejected =
    record {
      is_error = false;
      message = some (string (text "Rest"));
      data_property = some (object 1);
      error = none;
    }
    ∷ record { is_error = false; message = none; data_property = none; error = some (object 2) }
    ∷ record {
      is_error = false;
      message = some (string (text "No token"));
      data_property = none;
      error = none;
    }
    ∷ []

abbrev rank : ℕ → ℕ
rank a = 3 - a

message_runs : get_error_message 5 rejected none (object 0) ≡ some (text "No token")
unfolding get_error_message
message_runs = refl

rejected-IsRanked : IsRanked rejected rank
unfolding following object_at
rejected-IsRanked zero b h = let q : b ≡ 2 = cc in rw q (omega arith)
rejected-IsRanked (suc zero) b h = absurd cc
rejected-IsRanked (suc (suc zero)) b h = absurd cc
rejected-IsRanked (suc (suc (suc a))) b h = absurd cc

get_error_message-ChainEnds_example :
    (last : Value) × (ChainEnds rejected last (object 0)
      × (get_error_message 5 rejected none (object 0) ≡ some (own_message rejected none last)))
get_error_message-ChainEnds_example =
    get_error_message-ChainEnds rejected none rank 5 (object 0) rejected-IsRanked (omega arith)
