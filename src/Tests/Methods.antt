-- ===== src/Tests/Methods.antt =====
-- Methods of the Python class, and a push on its way to Python, at concrete inputs. A float is a
-- number here.
use nautilus_futu.Prelude.{
  ℕ, ◌≡◌, refl, List, [], ◌∷◌, ◌++◌, true, none, some, map, Result, ok, err, inl, inr,
}
use nautilus_futu.Prelude.Words.{pos}
use nautilus_futu.Prelude.Text.{Text, ascii}
use nautilus_futu.Prelude.Maps.{lookup}
use nautilus_futu.Generated.Common.{Response}
use nautilus_futu.Generated.Answer.Events.{IpoData}
use nautilus_futu.Generated.Answer.Push.{QotUpdateKlS2c}
use nautilus_futu.Protocol.Codec.{FutuMessage}
use nautilus_futu.Client.Connection.{recv, decipher}
use nautilus_futu.Client.Dispatcher.{deliver, retain_open}
use nautilus_futu.Client.Session.{FutuClient, new_client, recv_round}
use nautilus_futu.Python.{PyFutuClient, new, start_push, forward, listen}
use nautilus_futu.Python.Push.{PushDecoders, decode_push_message, poll_object}
use nautilus_futu.Python.Push.Types.{Polled, poll_object-Polled}
use nautilus_futu.Python.Arrival.{senders, handlers, polled, push-polled}
use nautilus_futu.Python.Methods.Listing.{Merged, get_ipo_list_item-Merged}
use nautilus_futu.Tests.Samples.{aes, plain, message, all_open}

-- An issue that lists in Hong Kong and in the US.
abbrev ipo : IpoData ℕ
ipo = record {
  basic = record {
    security = record { market = pos 1; code = ascii "00001" };
    name = ascii "Twice";
    list_time = none;
    list_timestamp = some 9;
  };
  cn_ex_data = none;
  hk_ex_data = some (record {
    ipo_price_min = 3;
    ipo_price_max = 5;
    list_price = 4;
    lot_size = pos 100;
    entrance_price = 400;
    is_subscribe_status = true;
    apply_end_time = none;
    apply_end_timestamp = none;
  });
  us_ex_data = some (record { ipo_price_min = 2; ipo_price_max = 6; issue_size = pos 7 });
}

get_ipo_list_item-Merged_example : Merged ipo
get_ipo_list_item-Merged_example = get_ipo_list_item-Merged ipo

-- A client whose receive loop runs.
abbrev receiving : FutuClient
receiving = record (new_client plain) { receiving = true }

-- There is a channel already, with a message in it.
abbrev connected : PyFutuClient
connected = record new {
  client = some receiving;
  push_channels = ((3005, 1 ∷ []) ∷ []) ∷ [];
  push_handles = (50, 0) ∷ [];
}

abbrev refusing : {S : Type 0} → List ℕ → Result Text (Response S)
refusing body = err (ascii "no message")

abbrev read_kl : List ℕ → Result Text (Response (QotUpdateKlS2c ℕ))
read_kl body = ok (record {
  ret_type = pos 0;
  ret_msg = none;
  err_code = none;
  s2c = some (record {
    rehab_type = pos 1;
    kl_type = pos 2;
    security = record { market = pos 1; code = body };
    name = none;
    kl_list = [];
  });
})

abbrev decoders : PushDecoders ℕ
decoders = record {
  basic_qot = refusing;
  ticker = refusing;
  order_book = refusing;
  kl = read_kl;
  trd_order = refusing;
  trd_fill = refusing;
}

-- A K-line, to the second of two new subscriptions.
abbrev kl : FutuMessage
kl = message 3007 0 (48 ∷ [])

abbrev subscriptions : List (ℕ × ℕ)
subscriptions = (3005, 51) ∷ (3007, 70) ∷ []

read : (recv aes (some (ok kl)) plain).0 ≡ ok kl
unfolding recv decipher
read = refl

push-polled_example :
    ((start_push subscriptions connected).0 ≡ ok 1)
    × ((start_push subscriptions connected).1.client ≡ some (listen subscriptions receiving))
    × ((recv_round aes all_open (some (ok kl)) (listen subscriptions receiving)).1
        ≡ map
            (λ t. deliver t kl)
            (retain_open all_open (handlers 3007 receiving ++ senders 3007 subscriptions)))
    × ((poll_object 0 decoders 1 (forward 70 kl (start_push subscriptions connected).1)).0
        ≡ polled 3007 (decode_push_message 0 decoders 3007 (48 ∷ [])))
push-polled_example =
    push-polled 0 decoders aes all_open (some (ok kl)) connected receiving kl subscriptions 70 refl
      refl read (unfold lookup in refl) (inr (inl (refl, refl))) (unfold lookup in refl)

poll_object-Polled_example :
    Polled (poll_object 0 decoders 1 (forward 70 kl (start_push subscriptions connected).1)).0
poll_object-Polled_example =
    poll_object-Polled 0 decoders 1 (forward 70 kl (start_push subscriptions connected).1)
