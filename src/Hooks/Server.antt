-- ===== src/Hooks/Server.antt =====
-- RosaServer/hooks.cpp: the replacements for the server, its packets and accounts. Each stands for
-- `standard` of the record.
use rosa_server.Base.{none, some, [], ◌∷◌, codes, Text}
use rosa_server.Base.Int.{ℤ, pos, negsuc}
use rosa_server.Hooks.Keys
use rosa_server.Hooks.Detours
use rosa_server.Hooks.World.{player, connection, int, ref, text}
use rosa_server.Hooks.Standard.{Hook}

abbrev pub server_receive : Hook
server_receive = record {
  key = Keys.server_receive;
  event = codes "ServerReceive";
  args = [];
  wrapped = [];
  detour = Detours.server_receive;
  call = λ vs. [];
  post_event = codes "PostServerReceive";
  post = λ result vs. some ([]);
  vetoed = negsuc 0;
}

abbrev pub server_send : Hook
server_send = record {
  key = Keys.server_send;
  event = codes "ServerSend";
  args = [];
  wrapped = [];
  detour = Detours.server_send;
  call = λ vs. [];
  post_event = codes "PostServerSend";
  post = λ result vs. some ([]);
  vetoed = pos 0;
}

abbrev pub packet_receive : Hook
packet_receive = record {
  key = Keys.packet_receive;
  event = codes "PacketReceive";
  args = [];
  wrapped = [];
  detour = Detours.packet_receive;
  call = λ vs. [];
  post_event = codes "PostPacketReceive";
  post = λ result vs. some ([]);
  vetoed = pos 0;
}

abbrev pub calculate_player_voice : ℤ → ℤ → Hook
calculate_player_voice connection_id player_id = record {
  key = Keys.calculate_ear_shots;
  event = codes "CalculateEarShots";
  args = ref connection connection_id ∷ ref player player_id ∷ [];
  wrapped = [];
  detour = Detours.calculate_player_voice;
  call = λ vs. int connection_id ∷ int player_id ∷ [];
  post_event = codes "PostCalculateEarShots";
  post = λ result vs. some (ref connection connection_id ∷ ref player player_id ∷ []);
  vetoed = pos 0;
}

abbrev pub send_packet : ℤ → ℤ → Text → ℤ → ℤ → Hook
send_packet address port address_string packet_type packet_size = record {
  key = Keys.send_packet;
  event = codes "SendPacket";
  args = text address_string ∷ int port ∷ int packet_type ∷ int packet_size ∷ [];
  wrapped = [];
  detour = Detours.send_packet;
  call = λ vs. int address ∷ int port ∷ [];
  post_event = codes "PostSendPacket";
  post =
      λ result vs. some (text address_string ∷ int port ∷ int packet_type ∷ int packet_size ∷ []);
  vetoed = pos 0;
}

abbrev pub economy_car_market : Hook
economy_car_market = record {
  key = Keys.economy_car_market;
  event = codes "EconomyCarMarket";
  args = [];
  wrapped = [];
  detour = Detours.economy_car_market;
  call = λ vs. [];
  post_event = codes "PostEconomyCarMarket";
  post = λ result vs. some ([]);
  vetoed = pos 0;
}

abbrev pub save_accounts_server : Hook
save_accounts_server = record {
  key = Keys.accounts_save;
  event = codes "AccountsSave";
  args = [];
  wrapped = [];
  detour = Detours.save_accounts_server;
  call = λ vs. [];
  post_event = codes "PostAccountsSave";
  post = λ result vs. some ([]);
  vetoed = pos 0;
}

abbrev pub server_player_message : ℤ → Text → Hook
server_player_message player_id message = record {
  key = Keys.player_chat;
  event = codes "PlayerChat";
  args = ref player player_id ∷ text message ∷ [];
  wrapped = [];
  detour = Detours.server_player_message;
  call = λ vs. int player_id ∷ text message ∷ [];
  post_event = [];
  post = λ result vs. none;
  vetoed = pos 1;
}

-- `hookAndReset` of api.cpp, which `resetGame` and the reset of Lua call.
abbrev pub hook_and_reset : ℤ → Hook
hook_and_reset reason = record {
  key = Keys.reset_game;
  event = codes "ResetGame";
  args = int reason ∷ [];
  wrapped = [];
  detour = Detours.reset_game;
  call = λ vs. [];
  post_event = codes "PostResetGame";
  post = λ result vs. some (int reason ∷ []);
  vetoed = pos 0;
}
