-- ===== src/Rf/Morse/Examples.antt =====
-- pi/morse.py: a pass that is stopped within its first word.
