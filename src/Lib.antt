-- ===== src/Lib.antt =====
-- WheelMUD: the core logic of a text game server, in a shallow embedding.
--
-- The server reads bytes from telnet clients, turns them into lines and commands, and keeps the
-- state of the game. Modelled are these parts:
--   telnet/iac.go, mssp.go and the GMCP frame of session.go  Telnet/Iac
--     `ReadIAC` is `read_iac`, from a session and the bytes to come to a result with the session, a
--     data byte or none, and the bytes that are left. `readSubnegotiation`, `HandleSubnegotiation`
--     and the other handlers have the same names in the spelling used here; the encoders are in
--     Iac/Wire. What the session writes or hands to its GMCP handler is kept in lists, the latest
--     first.
--   telnet/csi.go       Telnet/Csi       escape sequences of keys
--   telnet/history.go   Telnet/History   the lines a player can call up again
--   telnet/lineedit.go  Telnet/LineEdit  the line under edit and the echo of its keys
--     What the terminal shows is in LineEdit/Screen; LineEdit/Echo and Keys treat the keys one by one.
--   telnet/pager.go     Telnet/Pager     long output in pages
--   telnet/tokenize.go  Telnet/Tokens    a line as arguments and as commands
--   telnet/color.go     Telnet/Ansi      color codes, and taking them out of a text
--   internal/group/manager.go  Group     groups, invites and who shares in a room
--     The three maps of the manager are association lists in the record `Manager`. Each method is a
--     function from the manager; the lock of the source makes it one step. The types and the plain
--     reads are in Group/Defs/Registry, the other methods in Group/Defs. `Of` is `of_character`.
--   internal/progression/curve.go, levelup.go  Progression  experience, levels and their gains
--   internal/combat/xp_debt.go    Combat/XpDebt    the debt of experience after a death
--   internal/combat/iterative.go  Combat/Iterative the swings of a pulse
--   internal/combat/decay.go      Combat/Decay     the queue of corpses
--   internal/combat/fight.go      Combat/Fight     one fight: order, threat, the dead and the fled
--     Combat/Refs has the references to combatants of actor.go, and the maps keyed by them.
--   internal/combat/manager.go    Combat/Manager   the fights by room, and how an action is resolved
--     Manager/Lifecycle has Start, End and EnqueueAction, Manager/Pulse the pulse of a fight. The
--     repositories and what a death does to them are operations on a state, in the record `Engine`.
--   internal/combat/resolution.go Combat/Resolution  the rolls of an attack, and damage
--   internal/currency/currency.go Currency         coins and their checked arithmetic
--   internal/world/dayclock.go    World/DayClock   day, night and light
--   internal/world/coords_derive.go World/Coords   the places of the rooms, from the anchors on
--     Coords/Placing, Turn and Rounds go up from one exit to the loop over the queue.
--   internal/mob/bfs.go           Mob/Bfs          where a mob can go, and its next step to a room
--     `bfsReachable` and `bfsNextStep` go hop by hop; Bfs/Walk has what both leave behind a hop, and
--     Bfs/Trail the crumbs along which `reconstructFirstEdge` goes back.
--   internal/tick/scheduler.go    Tick             the subscriptions of the heartbeat
--     A tick takes what is due in one step; Tick/Dispatch has its start behind the lock as moves.
--   internal/affects/affects.go   Affects          timed effects on a creature
--   internal/quest/engine.go      Quest            the quest log of a character and its rewards
--     The helpers are in Quest, the entry points in Quest/Engine; Quest/Changes says what a call can do.
-- They meet where the source calls: the debt of a death is reckoned on the curve, and the shares of a
-- kill go to those that the group manager names.
--
-- Base holds what the parts share: Boolean tests, lists with a native length, integers with Go's
-- division, remainder and conversions, maps, and strings as lists of bytes.
--
-- Bounds: an int64 is an integer, with its range as a hypothesis where it matters; conversions to a
-- narrower type, and the product and the quotient of the test for overflow, are wrapped around by
-- `wrap`; a quest has at most 2 ^ 15 steps where the index of a step is to stay in range. Loops
-- follow the list they run over, or count down. Fuel bounds five: the reading of an escape sequence,
-- whose room of 32 bytes is the source's own; the lines of a text, by its bytes; the loops back
-- over a word, by the bytes before the cursor; the way back over the crumbs of a search, by their
-- number; and the walk that places the rooms, by the number of rooms. A read of a nil pointer, a
-- read outside a slice and a division by zero are `none`, or an outcome of its own in the quest
-- engine.
--
-- Parameters: lower-casing and case folding of strings.ToLower and strings.EqualFold,
-- strings.TrimSpace, the decimal digits of fmt.Sprintf, the delete of a repository; decoding, encoding
-- and widths of runes in the line editor; exits, zones and the end of the context in a search; the
-- repositories of rooms and exits; the operations of `Engine` on the world of a fight; the random
-- source, and strconv.Atoi; what the repositories answer to the quest engine, and its JSON.
--
-- Not modelled: the deaths in a fight and the costs of its actions, sessions, the event bus, Start and
-- Stop of the scheduler, which run a goroutine, dialogue and flows, the loading of the world,
-- and the wandering of mobs; the database, the scripting language, the network and the texts that
-- commands print.
pub mod Base
pub mod Group
pub mod Telnet
pub mod Progression
pub mod Combat
pub mod Currency
pub mod World
pub mod Mob
pub mod Tick
pub mod Affects
pub mod Quest
