-- ===== src/G711/AlawTables.antt =====
-- The three lookup tables of mpf/codecs/g711/alaw.go, row by row as the source lays them out.
use go_mrcp.Prelude.{[], ◌∷◌}
use go_mrcp.Prelude.Words.{neg}
use go_mrcp.G711.Table.{Table}

abbrev pub alaw_segment : Table
alaw_segment =
    (1 ∷ 1 ∷ 2 ∷ 2 ∷ 3 ∷ 3 ∷ 3 ∷ 3 ∷ [])
    ∷ (4 ∷ 4 ∷ 4 ∷ 4 ∷ 4 ∷ 4 ∷ 4 ∷ 4 ∷ [])
    ∷ (5 ∷ 5 ∷ 5 ∷ 5 ∷ 5 ∷ 5 ∷ 5 ∷ 5 ∷ [])
    ∷ (5 ∷ 5 ∷ 5 ∷ 5 ∷ 5 ∷ 5 ∷ 5 ∷ 5 ∷ [])
    ∷ (6 ∷ 6 ∷ 6 ∷ 6 ∷ 6 ∷ 6 ∷ 6 ∷ 6 ∷ [])
    ∷ (6 ∷ 6 ∷ 6 ∷ 6 ∷ 6 ∷ 6 ∷ 6 ∷ 6 ∷ [])
    ∷ (6 ∷ 6 ∷ 6 ∷ 6 ∷ 6 ∷ 6 ∷ 6 ∷ 6 ∷ [])
    ∷ (6 ∷ 6 ∷ 6 ∷ 6 ∷ 6 ∷ 6 ∷ 6 ∷ 6 ∷ [])
    ∷ (7 ∷ 7 ∷ 7 ∷ 7 ∷ 7 ∷ 7 ∷ 7 ∷ 7 ∷ [])
    ∷ (7 ∷ 7 ∷ 7 ∷ 7 ∷ 7 ∷ 7 ∷ 7 ∷ 7 ∷ [])
    ∷ (7 ∷ 7 ∷ 7 ∷ 7 ∷ 7 ∷ 7 ∷ 7 ∷ 7 ∷ [])
    ∷ (7 ∷ 7 ∷ 7 ∷ 7 ∷ 7 ∷ 7 ∷ 7 ∷ 7 ∷ [])
    ∷ (7 ∷ 7 ∷ 7 ∷ 7 ∷ 7 ∷ 7 ∷ 7 ∷ 7 ∷ [])
    ∷ (7 ∷ 7 ∷ 7 ∷ 7 ∷ 7 ∷ 7 ∷ 7 ∷ 7 ∷ [])
    ∷ (7 ∷ 7 ∷ 7 ∷ 7 ∷ 7 ∷ 7 ∷ 7 ∷ 7 ∷ [])
    ∷ (7 ∷ 7 ∷ 7 ∷ 7 ∷ 7 ∷ 7 ∷ 7 ∷ 7 ∷ [])
    ∷ []

abbrev pub alaw2lpcm : Table
alaw2lpcm =
    (neg 5504 ∷ neg 5248 ∷ neg 6016 ∷ neg 5760 ∷ neg 4480 ∷ neg 4224 ∷ neg 4992 ∷ neg 4736 ∷ [])
    ∷ (neg 7552 ∷ neg 7296 ∷ neg 8064 ∷ neg 7808 ∷ neg 6528 ∷ neg 6272 ∷ neg 7040 ∷ neg 6784 ∷ [])
    ∷ (neg 2752 ∷ neg 2624 ∷ neg 3008 ∷ neg 2880 ∷ neg 2240 ∷ neg 2112 ∷ neg 2496 ∷ neg 2368 ∷ [])
    ∷ (neg 3776 ∷ neg 3648 ∷ neg 4032 ∷ neg 3904 ∷ neg 3264 ∷ neg 3136 ∷ neg 3520 ∷ neg 3392 ∷ [])
    ∷ (neg 22016
        ∷ neg 20992
        ∷ neg 24064
        ∷ neg 23040
        ∷ neg 17920
        ∷ neg 16896
        ∷ neg 19968
        ∷ neg 18944
        ∷ [])
    ∷ (neg 30208
        ∷ neg 29184
        ∷ neg 32256
        ∷ neg 31232
        ∷ neg 26112
        ∷ neg 25088
        ∷ neg 28160
        ∷ neg 27136
        ∷ [])
    ∷ (neg 11008
        ∷ neg 10496
        ∷ neg 12032
        ∷ neg 11520
        ∷ neg 8960
        ∷ neg 8448
        ∷ neg 9984
        ∷ neg 9472
        ∷ [])
    ∷ (neg 15104
        ∷ neg 14592
        ∷ neg 16128
        ∷ neg 15616
        ∷ neg 13056
        ∷ neg 12544
        ∷ neg 14080
        ∷ neg 13568
        ∷ [])
    ∷ (neg 344 ∷ neg 328 ∷ neg 376 ∷ neg 360 ∷ neg 280 ∷ neg 264 ∷ neg 312 ∷ neg 296 ∷ [])
    ∷ (neg 472 ∷ neg 456 ∷ neg 504 ∷ neg 488 ∷ neg 408 ∷ neg 392 ∷ neg 440 ∷ neg 424 ∷ [])
    ∷ (neg 88 ∷ neg 72 ∷ neg 120 ∷ neg 104 ∷ neg 24 ∷ neg 8 ∷ neg 56 ∷ neg 40 ∷ [])
    ∷ (neg 216 ∷ neg 200 ∷ neg 248 ∷ neg 232 ∷ neg 152 ∷ neg 136 ∷ neg 184 ∷ neg 168 ∷ [])
    ∷ (neg 1376 ∷ neg 1312 ∷ neg 1504 ∷ neg 1440 ∷ neg 1120 ∷ neg 1056 ∷ neg 1248 ∷ neg 1184 ∷ [])
    ∷ (neg 1888 ∷ neg 1824 ∷ neg 2016 ∷ neg 1952 ∷ neg 1632 ∷ neg 1568 ∷ neg 1760 ∷ neg 1696 ∷ [])
    ∷ (neg 688 ∷ neg 656 ∷ neg 752 ∷ neg 720 ∷ neg 560 ∷ neg 528 ∷ neg 624 ∷ neg 592 ∷ [])
    ∷ (neg 944 ∷ neg 912 ∷ neg 1008 ∷ neg 976 ∷ neg 816 ∷ neg 784 ∷ neg 880 ∷ neg 848 ∷ [])
    ∷ (5504 ∷ 5248 ∷ 6016 ∷ 5760 ∷ 4480 ∷ 4224 ∷ 4992 ∷ 4736 ∷ [])
    ∷ (7552 ∷ 7296 ∷ 8064 ∷ 7808 ∷ 6528 ∷ 6272 ∷ 7040 ∷ 6784 ∷ [])
    ∷ (2752 ∷ 2624 ∷ 3008 ∷ 2880 ∷ 2240 ∷ 2112 ∷ 2496 ∷ 2368 ∷ [])
    ∷ (3776 ∷ 3648 ∷ 4032 ∷ 3904 ∷ 3264 ∷ 3136 ∷ 3520 ∷ 3392 ∷ [])
    ∷ (22016 ∷ 20992 ∷ 24064 ∷ 23040 ∷ 17920 ∷ 16896 ∷ 19968 ∷ 18944 ∷ [])
    ∷ (30208 ∷ 29184 ∷ 32256 ∷ 31232 ∷ 26112 ∷ 25088 ∷ 28160 ∷ 27136 ∷ [])
    ∷ (11008 ∷ 10496 ∷ 12032 ∷ 11520 ∷ 8960 ∷ 8448 ∷ 9984 ∷ 9472 ∷ [])
    ∷ (15104 ∷ 14592 ∷ 16128 ∷ 15616 ∷ 13056 ∷ 12544 ∷ 14080 ∷ 13568 ∷ [])
    ∷ (344 ∷ 328 ∷ 376 ∷ 360 ∷ 280 ∷ 264 ∷ 312 ∷ 296 ∷ [])
    ∷ (472 ∷ 456 ∷ 504 ∷ 488 ∷ 408 ∷ 392 ∷ 440 ∷ 424 ∷ [])
    ∷ (88 ∷ 72 ∷ 120 ∷ 104 ∷ 24 ∷ 8 ∷ 56 ∷ 40 ∷ [])
    ∷ (216 ∷ 200 ∷ 248 ∷ 232 ∷ 152 ∷ 136 ∷ 184 ∷ 168 ∷ [])
    ∷ (1376 ∷ 1312 ∷ 1504 ∷ 1440 ∷ 1120 ∷ 1056 ∷ 1248 ∷ 1184 ∷ [])
    ∷ (1888 ∷ 1824 ∷ 2016 ∷ 1952 ∷ 1632 ∷ 1568 ∷ 1760 ∷ 1696 ∷ [])
    ∷ (688 ∷ 656 ∷ 752 ∷ 720 ∷ 560 ∷ 528 ∷ 624 ∷ 592 ∷ [])
    ∷ (944 ∷ 912 ∷ 1008 ∷ 976 ∷ 816 ∷ 784 ∷ 880 ∷ 848 ∷ [])
    ∷ []

abbrev pub alaw2ulaw : Table
alaw2ulaw =
    (42 ∷ 43 ∷ 40 ∷ 41 ∷ 46 ∷ 47 ∷ 44 ∷ 45 ∷ 34 ∷ 35 ∷ 32 ∷ 33 ∷ 38 ∷ 39 ∷ 36 ∷ 37 ∷ [])
    ∷ (57 ∷ 58 ∷ 55 ∷ 56 ∷ 61 ∷ 62 ∷ 59 ∷ 60 ∷ 49 ∷ 50 ∷ 47 ∷ 48 ∷ 53 ∷ 54 ∷ 51 ∷ 52 ∷ [])
    ∷ (10 ∷ 11 ∷ 8 ∷ 9 ∷ 14 ∷ 15 ∷ 12 ∷ 13 ∷ 2 ∷ 3 ∷ 0 ∷ 1 ∷ 6 ∷ 7 ∷ 4 ∷ 5 ∷ [])
    ∷ (26 ∷ 27 ∷ 24 ∷ 25 ∷ 30 ∷ 31 ∷ 28 ∷ 29 ∷ 18 ∷ 19 ∷ 16 ∷ 17 ∷ 22 ∷ 23 ∷ 20 ∷ 21 ∷ [])
    ∷ (98 ∷ 99 ∷ 96 ∷ 97 ∷ 102 ∷ 103 ∷ 100 ∷ 101 ∷ 93 ∷ 93 ∷ 92 ∷ 92 ∷ 95 ∷ 95 ∷ 94 ∷ 94 ∷ [])
    ∷ (116 ∷ 118 ∷ 112 ∷ 114 ∷ 124 ∷ 126 ∷ 120 ∷ 122 ∷ 106 ∷ 107 ∷ 104 ∷ 105 ∷ 110 ∷ 111 ∷ 108 ∷ 109
        ∷ [])
    ∷ (72 ∷ 73 ∷ 70 ∷ 71 ∷ 76 ∷ 77 ∷ 74 ∷ 75 ∷ 64 ∷ 65 ∷ 63 ∷ 63 ∷ 68 ∷ 69 ∷ 66 ∷ 67 ∷ [])
    ∷ (86 ∷ 87 ∷ 84 ∷ 85 ∷ 90 ∷ 91 ∷ 88 ∷ 89 ∷ 79 ∷ 79 ∷ 78 ∷ 78 ∷ 82 ∷ 83 ∷ 80 ∷ 81 ∷ [])
    ∷ (170 ∷ 171 ∷ 168 ∷ 169 ∷ 174 ∷ 175 ∷ 172 ∷ 173 ∷ 162 ∷ 163 ∷ 160 ∷ 161 ∷ 166 ∷ 167 ∷ 164 ∷ 165
        ∷ [])
    ∷ (185 ∷ 186 ∷ 183 ∷ 184 ∷ 189 ∷ 190 ∷ 187 ∷ 188 ∷ 177 ∷ 178 ∷ 175 ∷ 176 ∷ 181 ∷ 182 ∷ 179 ∷ 180
        ∷ [])
    ∷ (138 ∷ 139 ∷ 136 ∷ 137 ∷ 142 ∷ 143 ∷ 140 ∷ 141 ∷ 130 ∷ 131 ∷ 128 ∷ 129 ∷ 134 ∷ 135 ∷ 132 ∷ 133
        ∷ [])
    ∷ (154 ∷ 155 ∷ 152 ∷ 153 ∷ 158 ∷ 159 ∷ 156 ∷ 157 ∷ 146 ∷ 147 ∷ 144 ∷ 145 ∷ 150 ∷ 151 ∷ 148 ∷ 149
        ∷ [])
    ∷ (226 ∷ 227 ∷ 224 ∷ 225 ∷ 230 ∷ 231 ∷ 228 ∷ 229 ∷ 221 ∷ 221 ∷ 220 ∷ 220 ∷ 223 ∷ 223 ∷ 222 ∷ 222
        ∷ [])
    ∷ (244 ∷ 246 ∷ 240 ∷ 242 ∷ 252 ∷ 254 ∷ 248 ∷ 250 ∷ 234 ∷ 235 ∷ 232 ∷ 233 ∷ 238 ∷ 239 ∷ 236 ∷ 237
        ∷ [])
    ∷ (200 ∷ 201 ∷ 198 ∷ 199 ∷ 204 ∷ 205 ∷ 202 ∷ 203 ∷ 192 ∷ 193 ∷ 191 ∷ 191 ∷ 196 ∷ 197 ∷ 194 ∷ 195
        ∷ [])
    ∷ (214 ∷ 215 ∷ 212 ∷ 213 ∷ 218 ∷ 219 ∷ 216 ∷ 217 ∷ 207 ∷ 207 ∷ 206 ∷ 206 ∷ 210 ∷ 211 ∷ 208 ∷ 209
        ∷ [])
    ∷ []
