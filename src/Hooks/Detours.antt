-- ===== src/Hooks/Detours.antt =====
-- RosaServer/hooks.cpp: the detours, the variables of type `subhook::Hook`, in their order.
use rosa_server.Base.{ℕ}

abbrev pub sub_rosa_puts : ℕ
sub_rosa_puts = 0

abbrev pub sub_rosa_printf_chk : ℕ
sub_rosa_printf_chk = 1

abbrev pub reset_game : ℕ
reset_game = 2

abbrev pub create_traffic : ℕ
create_traffic = 3

abbrev pub traffic_simulation : ℕ
traffic_simulation = 4

abbrev pub ai_traffic_car : ℕ
ai_traffic_car = 5

abbrev pub ai_traffic_car_destination : ℕ
ai_traffic_car_destination = 6

abbrev pub area_create_block : ℕ
area_create_block = 7

abbrev pub area_delete_block : ℕ
area_delete_block = 8

abbrev pub logic_simulation : ℕ
logic_simulation = 9

abbrev pub logic_simulation_race : ℕ
logic_simulation_race = 10

abbrev pub logic_simulation_round : ℕ
logic_simulation_round = 11

abbrev pub logic_simulation_world : ℕ
logic_simulation_world = 12

abbrev pub logic_simulation_terminator : ℕ
logic_simulation_terminator = 13

abbrev pub logic_simulation_coop : ℕ
logic_simulation_coop = 14

abbrev pub logic_simulation_versus : ℕ
logic_simulation_versus = 15

abbrev pub logic_player_actions : ℕ
logic_player_actions = 16

abbrev pub physics_simulation : ℕ
physics_simulation = 17

abbrev pub rigid_body_simulation : ℕ
rigid_body_simulation = 18

abbrev pub vehicle_simulate_suspensions : ℕ
vehicle_simulate_suspensions = 19

abbrev pub item_weapon_simulation : ℕ
item_weapon_simulation = 20

abbrev pub server_receive : ℕ
server_receive = 21

abbrev pub server_send : ℕ
server_send = 22

abbrev pub packet_write : ℕ
packet_write = 23

abbrev pub packet_receive : ℕ
packet_receive = 24

abbrev pub calculate_player_voice : ℕ
calculate_player_voice = 25

abbrev pub send_packet : ℕ
send_packet = 26

abbrev pub bullet_simulation : ℕ
bullet_simulation = 27

abbrev pub economy_car_market : ℕ
economy_car_market = 28

abbrev pub save_accounts_server : ℕ
save_accounts_server = 29

abbrev pub create_account_by_join_ticket : ℕ
create_account_by_join_ticket = 30

abbrev pub server_send_connect_response : ℕ
server_send_connect_response = 31

abbrev pub link_item : ℕ
link_item = 32

abbrev pub item_computer_input : ℕ
item_computer_input = 33

abbrev pub human_apply_damage : ℕ
human_apply_damage = 34

abbrev pub human_collision_vehicle : ℕ
human_collision_vehicle = 35

abbrev pub human_limb_inverse_kinematics : ℕ
human_limb_inverse_kinematics = 36

abbrev pub grenade_explosion : ℕ
grenade_explosion = 37

abbrev pub vehicle_apply_damage : ℕ
vehicle_apply_damage = 38

abbrev pub server_player_message : ℕ
server_player_message = 39

abbrev pub player_ai : ℕ
player_ai = 40

abbrev pub player_death_tax : ℕ
player_death_tax = 41

abbrev pub account_death_tax : ℕ
account_death_tax = 42

abbrev pub player_give_wanted_level : ℕ
player_give_wanted_level = 43

abbrev pub add_collision_rigid_body_on_rigid_body : ℕ
add_collision_rigid_body_on_rigid_body = 44

abbrev pub create_bullet : ℕ
create_bullet = 45

abbrev pub create_player : ℕ
create_player = 46

abbrev pub delete_player : ℕ
delete_player = 47

abbrev pub create_human : ℕ
create_human = 48

abbrev pub delete_human : ℕ
delete_human = 49

abbrev pub create_item : ℕ
create_item = 50

abbrev pub delete_item : ℕ
delete_item = 51

abbrev pub create_vehicle : ℕ
create_vehicle = 52

abbrev pub delete_vehicle : ℕ
delete_vehicle = 53

abbrev pub create_rigid_body : ℕ
create_rigid_body = 54

abbrev pub create_event_message : ℕ
create_event_message = 55

abbrev pub create_event_update_elim_state : ℕ
create_event_update_elim_state = 56

abbrev pub create_event_update_item_info : ℕ
create_event_update_item_info = 57

abbrev pub create_event_update_player : ℕ
create_event_update_player = 58

abbrev pub create_event_update_vehicle : ℕ
create_event_update_vehicle = 59

abbrev pub create_event_sound : ℕ
create_event_sound = 60

abbrev pub create_event_sound_item : ℕ
create_event_sound_item = 61

abbrev pub create_event_bullet : ℕ
create_event_bullet = 62

abbrev pub create_event_bullet_hit : ℕ
create_event_bullet_hit = 63

abbrev pub line_intersect_human : ℕ
line_intersect_human = 64

abbrev pub line_intersect_level : ℕ
line_intersect_level = 65
