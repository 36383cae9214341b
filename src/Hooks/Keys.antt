-- ===== src/Hooks/Keys.antt =====
-- RosaServer/hooks.h: `enum EnableKeys`, in its order.
use rosa_server.Base.{ℕ}

abbrev pub reset_game : ℕ
reset_game = 0

abbrev pub create_traffic : ℕ
create_traffic = 1

abbrev pub traffic_simulation : ℕ
traffic_simulation = 2

abbrev pub traffic_car_ai : ℕ
traffic_car_ai = 3

abbrev pub traffic_car_destination : ℕ
traffic_car_destination = 4

abbrev pub area_create_block : ℕ
area_create_block = 5

abbrev pub area_delete_block : ℕ
area_delete_block = 6

abbrev pub interrupt_signal : ℕ
interrupt_signal = 7

abbrev pub logic : ℕ
logic = 8

abbrev pub console_input : ℕ
console_input = 9

abbrev pub console_auto_complete : ℕ
console_auto_complete = 10

abbrev pub logic_race : ℕ
logic_race = 11

abbrev pub logic_round : ℕ
logic_round = 12

abbrev pub logic_world : ℕ
logic_world = 13

abbrev pub logic_terminator : ℕ
logic_terminator = 14

abbrev pub logic_coop : ℕ
logic_coop = 15

abbrev pub logic_versus : ℕ
logic_versus = 16

abbrev pub player_actions : ℕ
player_actions = 17

abbrev pub physics : ℕ
physics = 18

abbrev pub physics_rigid_bodies : ℕ
physics_rigid_bodies = 19

abbrev pub vehicle_suspensions : ℕ
vehicle_suspensions = 20

abbrev pub item_weapon_simulation : ℕ
item_weapon_simulation = 21

abbrev pub server_receive : ℕ
server_receive = 22

abbrev pub server_send : ℕ
server_send = 23

abbrev pub packet_building : ℕ
packet_building = 24

abbrev pub packet_receive : ℕ
packet_receive = 25

abbrev pub calculate_ear_shots : ℕ
calculate_ear_shots = 26

abbrev pub send_packet : ℕ
send_packet = 27

abbrev pub physics_bullets : ℕ
physics_bullets = 28

abbrev pub economy_car_market : ℕ
economy_car_market = 29

abbrev pub accounts_save : ℕ
accounts_save = 30

abbrev pub account_ticket_begin : ℕ
account_ticket_begin = 31

abbrev pub account_ticket_found : ℕ
account_ticket_found = 32

abbrev pub account_ticket : ℕ
account_ticket = 33

abbrev pub send_connect_response : ℕ
send_connect_response = 34

abbrev pub item_link : ℕ
item_link = 35

abbrev pub item_computer_input : ℕ
item_computer_input = 36

abbrev pub human_damage : ℕ
human_damage = 37

abbrev pub human_collision_vehicle : ℕ
human_collision_vehicle = 38

abbrev pub human_limb_inverse_kinematics : ℕ
human_limb_inverse_kinematics = 39

abbrev pub grenade_explode : ℕ
grenade_explode = 40

abbrev pub vehicle_damage : ℕ
vehicle_damage = 41

abbrev pub player_chat : ℕ
player_chat = 42

abbrev pub player_ai : ℕ
player_ai = 43

abbrev pub player_death_tax : ℕ
player_death_tax = 44

abbrev pub account_death_tax : ℕ
account_death_tax = 45

abbrev pub player_give_wanted_level : ℕ
player_give_wanted_level = 46

abbrev pub collide_bodies : ℕ
collide_bodies = 47

abbrev pub bullet_create : ℕ
bullet_create = 48

abbrev pub player_create : ℕ
player_create = 49

abbrev pub player_delete : ℕ
player_delete = 50

abbrev pub human_create : ℕ
human_create = 51

abbrev pub human_delete : ℕ
human_delete = 52

abbrev pub item_create : ℕ
item_create = 53

abbrev pub item_delete : ℕ
item_delete = 54

abbrev pub vehicle_create : ℕ
vehicle_create = 55

abbrev pub vehicle_delete : ℕ
vehicle_delete = 56

abbrev pub event_message : ℕ
event_message = 57

abbrev pub event_update_elim_state : ℕ
event_update_elim_state = 58

abbrev pub event_update_item_info : ℕ
event_update_item_info = 59

abbrev pub event_update_player : ℕ
event_update_player = 60

abbrev pub event_update_vehicle : ℕ
event_update_vehicle = 61

abbrev pub event_sound : ℕ
event_sound = 62

abbrev pub event_sound_item : ℕ
event_sound_item = 63

abbrev pub event_bullet : ℕ
event_bullet = 64

abbrev pub event_bullet_hit : ℕ
event_bullet_hit = 65

abbrev pub line_intersect_human : ℕ
line_intersect_human = 66

abbrev pub bullet_may_hit : ℕ
bullet_may_hit = 67

abbrev pub bullet_may_hit_human : ℕ
bullet_may_hit_human = 68

abbrev pub bullet_hit_human : ℕ
bullet_hit_human = 69

-- `EnableKeys::SIZE`
abbrev pub size : ℕ
size = 70
